-- ===== src/FilePath/Laws.antt =====
-- A cleaned name ends in a slash only if it is the root.
use griya_maya.Base.{
  ℕ, ◌≡◌, ◌≢◌, refl, Bool, true, false, List, [], ◌∷◌, ◌++◌, arith, ◌==◌, All, ◌∙◌, append-nil, sym,
  ap,
}
use griya_maya.Text.{Str, str, has_prefix}
use griya_maya.Text.Laws.{has_prefix_iff}
use griya_maya.FilePath.{
  slash, push_head, split_on, back, resolve, resolve_all, join_up, finish, is_rooted, clean, dir,
  dir_part,
}

abbrev pub NoSlash : Str → Type 0
NoSlash [] = Unit
NoSlash (c ∷ s) = (c ≢ slash) × NoSlash s

-- what stands on the stack of Clean: a name with no slash that is not empty
abbrev IsElement : Str → Type 0
IsElement s = (s ≢ []) × NoSlash s

abbrev pub ends_slash : Str → Bool
ends_slash [] = false
ends_slash (c ∷ []) = c == slash
ends_slash (c ∷ d ∷ s) = ends_slash (d ∷ s)

push_head-NoSlash :
    (c : ℕ) (ps : List Str) → c ≢ slash → All NoSlash ps → All NoSlash (push_head c ps)
push_head-NoSlash c [] h k = ((h, tt), tt)
push_head-NoSlash c (p ∷ ps) h (k, ks) = ((h, k), ks)

split_on-NoSlash : (s : Str) → All NoSlash (split_on slash s)
unfolding split_on
split_on-NoSlash [] = (tt, tt)
split_on-NoSlash (c ∷ s) =
    ground (arith, split_on-NoSlash s, push_head-NoSlash c (split_on slash s))

dots : IsElement (str "..")
dots = ((λ e. cc), ((λ e. omega arith), ((λ e. omega arith), tt)))

back-IsElement : (r : Bool) (stack : List Str) → All IsElement stack → All IsElement (back r stack)
back-IsElement true [] h = tt
back-IsElement false [] h = (dots, tt)
back-IsElement r (top ∷ below) h = ground (arith, dots)

resolve-IsElement :
    (r : Bool) (stack : List Str) (part : Str)
    → All IsElement stack
    → NoSlash part
    → All IsElement (resolve r stack part)
unfolding resolve
resolve-IsElement r stack [] h k = h
resolve-IsElement r stack (c ∷ s) h k = ground (arith, back-IsElement r stack h)

resolve_all-IsElement :
    (r : Bool) (stack parts : List Str)
    → All IsElement stack
    → All NoSlash parts
    → All IsElement (resolve_all r stack parts)
unfolding resolve_all
resolve_all-IsElement r stack [] h k = h
resolve_all-IsElement r stack (part ∷ parts) h (k, ks) =
    resolve_all-IsElement r (resolve r stack part) parts (resolve-IsElement r stack part h k) ks

ends_slash-element : (s : Str) → NoSlash s → ends_slash s ≡ false
ends_slash-element [] h = refl
ends_slash-element (c ∷ []) h = ground arith
ends_slash-element (c ∷ d ∷ s) h = ends_slash-element (d ∷ s) h.1

ends_slash-append : (s t : Str) → t ≢ [] → ends_slash (s ++ t) ≡ ends_slash t
ends_slash-append [] t h = refl
ends_slash-append (c ∷ []) [] h = absurd (h refl)
ends_slash-append (c ∷ []) (d ∷ t) h = refl
ends_slash-append (c ∷ d ∷ s) t h = ends_slash-append (d ∷ s) t h

ends_slash-join_up : (stack : List Str) → All IsElement stack → ends_slash (join_up stack) ≡ false
unfolding join_up
ends_slash-join_up [] h = refl
ends_slash-join_up (top ∷ []) h = ends_slash-element top h.0.1
ends_slash-join_up ([] ∷ p ∷ below) h = absurd (h.0.0 refl)
ends_slash-join_up ((c ∷ s) ∷ p ∷ below) h =
    ends_slash-append (join_up (p ∷ below)) (slash ∷ c ∷ s) (λ e. cc)
    ∙ ends_slash-element (c ∷ s) h.0.1

finish-no_slash :
    (r : Bool) (s : Str)
    → ends_slash s ≡ false
    → finish r s ≢ slash ∷ []
    → ends_slash (finish r s) ≡ false
finish-no_slash true [] e h = absurd (h refl)
finish-no_slash true (c ∷ s) e h = e
finish-no_slash false [] e h = refl
finish-no_slash false (c ∷ s) e h = e

-- path.Clean gives a name that ends in a slash for the root alone.
pub ends_slash-clean : (s : Str) → clean s ≢ slash ∷ [] → ends_slash (clean s) ≡ false
unfolding clean
ends_slash-clean s h = finish-no_slash (is_rooted s) _ joined h
  where
    joined : ends_slash (join_up (resolve_all (is_rooted s) [] (split_on slash s))) ≡ false
    joined =
        ends_slash-join_up _
          (resolve_all-IsElement (is_rooted s) [] (split_on slash s) tt (split_on-NoSlash s))

bare_slash :
    (p s : Str) → p ≢ [] → s ≡ p ++ slash ∷ [] → (s ≢ slash ∷ [] → ends_slash s ≡ false) → ⊥
bare_slash [] s ne e h = ne refl
bare_slash (c ∷ p) s ne e h = cc (
  sym (ends_slash-append (c ∷ p) (slash ∷ []) (λ f. cc)),
  ap ends_slash e,
  h (λ f. longer p (sym e ∙ f)),
)
  where
    longer : (q : Str) → c ∷ q ++ slash ∷ [] ≡ slash ∷ [] → ⊥
    longer [] f = cc
    longer (d ∷ q) f = cc

-- So a directory under a prefix that ends in a slash has a name of its own below it.
pub dir-below :
    (p s : Str)
    → has_prefix (p ++ slash ∷ []) (dir s) ≡ true
    → p ≢ []
    → (t : Str) × (t ≢ []) × (dir s ≡ (p ++ slash ∷ []) ++ t)
unfolding dir
dir-below p s h ne = below (has_prefix_iff (p ++ slash ∷ []) (clean (dir_part s)) h)
  where
    below :
        (t : Str) × (clean (dir_part s) ≡ (p ++ slash ∷ []) ++ t)
        → (t : Str) × (t ≢ []) × (clean (dir_part s) ≡ (p ++ slash ∷ []) ++ t)
    below ([], e) =
        absurd
          (bare_slash p (clean (dir_part s)) ne (e ∙ append-nil _) (ends_slash-clean (dir_part s)))
    below (c ∷ t, e) = (c ∷ t, (λ f. cc), e)
