-- ===== src/Server/Laws.antt =====
-- Which requests change anything without a token.
use griya_maya.Base.{
  ℕ, zero, suc, ◌≡◌, refl, subst, Bool, true, false, not, ◌&&◌, ◌||◌, List, [], ◌∷◌, drop, is_empty,
  some, arith, if◌then◌else◌,
}
use griya_maya.Text.{Str, str, mem_str, has_prefix, str_eq}
use griya_maya.Effect.{Result, ok}
use griya_maya.Repo.Reads.{first}
use griya_maya.Oidc.Scopes.{has_scope}
use griya_maya.Oidc.Gate.{
  Claims, next, bearer_token, gate, taxonomy_gate, taxonomy_write_kinds, scope_taxonomy_write,
}
use griya_maya.Oidc.Gate.Laws.{gate_iff}
use griya_maya.Server.{
  Method, get, Guard, ungated, required, taxonomy, scoped, Route, provider_paths, routes, admit,
}

abbrev pub is_get : Method → Bool
is_get get = true
is_get _ = false

abbrev is_open : Guard → Bool
is_open ungated = true
is_open _ = false

-- the sign-in, the registration and the clients' own management
abbrev pub is_public : Str → Bool
is_public path =
    mem_str path provider_paths
    || str_eq path (str "/v1/register")
    || has_prefix (str "/connect/register") path

-- the scope that a gate asks for
abbrev pub asked_scope : Str → Str → Guard → Str
asked_scope required_scope kind ungated = []
asked_scope required_scope kind required = required_scope
asked_scope required_scope kind taxonomy =
    if mem_str kind taxonomy_write_kinds then scope_taxonomy_write kind else []
asked_scope required_scope kind (scoped scope) = scope

abbrev unguarded : Route → Bool
unguarded r = not (is_get r.method) && not (is_public r.path) && is_open r.guard

abbrev some_route : (Route → Bool) → List Route → Bool
some_route p [] = false
some_route p (r ∷ rs) = p r || some_route p rs

at_index :
    (p : Route → Bool) (n : ℕ) (rs : List Route) (r : Route)
    → some_route p rs ≡ false
    → first (drop n rs) ≡ some r
    → p r ≡ false
at_index p n [] r h there = absurd (nothing n there)
  where
    nothing : (n : ℕ) → first (drop n []) ≡ some r → ⊥
    nothing zero e = cc
    nothing (suc n) e = cc
at_index p zero (x ∷ rs) r h there =
    let here : x ≡ r = ground arith in subst (λ y. p y ≡ false) here (ground arith)
at_index p (suc n) (x ∷ rs) r h there = at_index p n rs r (ground arith) there

no_unguarded : some_route unguarded routes ≡ false
unfolding mem_str str_eq has_prefix
no_unguarded = refl

admitted :
    (verify : Str → Result Claims) (required_scope kind header : Str) (guard : Guard)
    (claims : Claims)
    → is_open guard ≡ false
    → admit verify required_scope kind guard header ≡ next claims
    → gate verify (asked_scope required_scope kind guard) header ≡ next claims
unfolding admit taxonomy_gate
admitted verify required_scope kind header ungated claims h passed = absurd cc
admitted verify required_scope kind header required claims h passed = passed
admitted verify required_scope kind header taxonomy claims h passed = passed
admitted verify required_scope kind header (scoped scope) claims h passed = passed

-- A request to a route that is not a GET and is neither of the sign-in, nor the registration, nor the
-- management of clients by their own tokens, passes its gate only with a bearer token that is verified
-- and holds the scope that the gate asks for, if it asks for one.
pub write_guarded :
    (verify : Str → Result Claims) (required_scope kind header : Str) (n : ℕ) (r : Route)
    (claims : Claims)
    → first (drop n routes) ≡ some r
    → is_get r.method ≡ false
    → is_public r.path ≡ false
    → admit verify required_scope kind r.guard header ≡ next claims
    → (is_empty (bearer_token header) ≡ false)
      × (verify (bearer_token header) ≡ ok claims)
      × ((is_empty (asked_scope required_scope kind r.guard)
            || has_scope claims.scopes (asked_scope required_scope kind r.guard))
          ≡ true)
write_guarded verify required_scope kind header n r claims there writes private passed =
    let safe : unguarded r ≡ false = at_index unguarded n routes r no_unguarded there in
    let gated : is_open r.guard ≡ false = by_flags r writes private safe in
    (gate_iff verify (asked_scope required_scope kind r.guard) header claims).0
      (admitted verify required_scope kind header r.guard claims gated passed)
  where
    by_flags :
        (r : Route)
        → is_get r.method ≡ false
        → is_public r.path ≡ false
        → unguarded r ≡ false
        → is_open r.guard ≡ false
    by_flags r g p u = combine (is_get r.method) (is_public r.path) (is_open r.guard) g p u
      where
        combine : (a b c : Bool) → a ≡ false → b ≡ false → (not a && not b && c) ≡ false → c ≡ false
        combine a b c x y z = ground arith
