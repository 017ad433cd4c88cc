-- ===== src/Oidc/Scopes/Laws.antt =====
-- Consents as sets of scopes.
use griya_maya.Base.{
  ◌≡◌, refl, ap, ◌∙◌, Bool, true, false, not, ◌&&◌, ◌||◌, List, [], ◌∷◌, ◌++◌, keep, arith, inl,
  inr, Bool-cases,
}
use griya_maya.Text.{Str, str_eq, mem_str}
use griya_maya.Text.Laws.{str_eq_iff, str_eq_refl, str_eq_comm}
use griya_maya.Text.Membership.{mem_str-append}
use griya_maya.Oidc.Scopes.{missing_scopes, union_onto, union_scopes}

-- whether no text stands twice
unfoldable pub distinct : List Str → Bool
distinct [] = true
distinct (s ∷ ss) = not (mem_str s ss) && distinct ss

mem_str-union_onto :
    (k : Str) (out scopes : List Str)
    → mem_str k (union_onto out scopes) ≡ (mem_str k out || mem_str k scopes)
unfolding union_onto mem_str
mem_str-union_onto k out [] = ground arith
mem_str-union_onto k out (s ∷ scopes) = elim (Bool-cases (mem_str s out)) [
  | inl seen ↦ rw seen (elim (Bool-cases (str_eq s k)) [
    | inl same ↦
        let e = (str_eq_iff s k).0 same in
        ground (arith, mem_str-union_onto k out scopes, ap (λ x. mem_str x out) e)
    | inr other ↦ ground (arith, mem_str-union_onto k out scopes)
  ])
  | inr new ↦
      rw new
        (ground (arith, mem_str-union_onto k (out ++ s ∷ []) scopes, mem_str-append k out (s ∷ [])))
]

-- The consent recorded by a union holds exactly the scopes of the two lists.
pub mem_str-union_scopes :
    (k : Str) (a b : List Str) → mem_str k (union_scopes a b) ≡ (mem_str k a || mem_str k b)
unfolding union_scopes mem_str
mem_str-union_scopes k a b =
    mem_str-union_onto k (union_onto [] a) b
    ∙ ap (λ x. x || mem_str k b) (mem_str-union_onto k [] a)

distinct-append :
    (ss : List Str) (s : Str)
    → mem_str s ss ≡ false
    → distinct ss ≡ true
    → distinct (ss ++ s ∷ []) ≡ true
unfolding distinct mem_str
distinct-append [] s m h = refl
distinct-append (x ∷ ss) s m h =
    ground (arith, distinct-append ss s, mem_str-append x ss (s ∷ []), str_eq_comm x s)

distinct-union_onto :
    (out scopes : List Str) → distinct out ≡ true → distinct (union_onto out scopes) ≡ true
unfolding union_onto
distinct-union_onto out [] h = h
distinct-union_onto out (s ∷ scopes) h = elim (Bool-cases (mem_str s out)) [
  | inl seen ↦ rw seen (distinct-union_onto out scopes h)
  | inr new ↦ rw new (distinct-union_onto (out ++ s ∷ []) scopes (distinct-append out s new h))
]

-- No scope stands twice in a recorded consent, however often the lists repeat it.
pub distinct-union_scopes : (a b : List Str) → distinct (union_scopes a b) ≡ true
unfolding union_scopes distinct
distinct-union_scopes a b = distinct-union_onto (union_onto [] a) b (distinct-union_onto [] a refl)

missing-keep :
    (requested granted : List Str)
    → missing_scopes requested granted ≡ keep (λ s. not (mem_str s granted)) requested
unfolding missing_scopes
missing-keep [] granted = refl
missing-keep (s ∷ requested) granted = ground (arith, missing-keep requested granted)

missing-none :
    (requested granted : List Str)
    → ((k : Str) → mem_str k requested ≡ true → mem_str k granted ≡ true)
    → missing_scopes requested granted ≡ []
unfolding missing_scopes mem_str
missing-none [] granted h = refl
missing-none (s ∷ requested) granted h =
    rw (h s (ground (arith, str_eq_refl s)))
      (missing-none requested granted (λ k m. h k (ground arith)))

-- Once the scopes of a request are approved, on top of whatever was granted before, the same request
-- asks for no consent.
pub missing_scopes-union_scopes :
    (granted requested : List Str) → missing_scopes requested (union_scopes granted requested) ≡ []
missing_scopes-union_scopes granted requested =
    missing-none requested (union_scopes granted requested)
      (λ k m. ground (arith, mem_str-union_scopes k granted requested))

-- The scopes recorded for a consent are those granted before with those approved now, each of them
-- once, and a later request for the approved ones asks for no consent.
pub union_scopes_lem :
    (granted approved : List Str) (k : Str)
    → (mem_str k (union_scopes granted approved) ≡ (mem_str k granted || mem_str k approved))
      × (distinct (union_scopes granted approved) ≡ true)
      × (missing_scopes approved (union_scopes granted approved) ≡ [])
union_scopes_lem granted approved k = (
  mem_str-union_scopes k granted approved,
  distinct-union_scopes granted approved,
  missing_scopes-union_scopes granted approved,
)
