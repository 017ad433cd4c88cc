-- ===== src/Text/Laws.antt =====
-- Laws of the string functions.
use griya_maya.Base.{◌≡◌, refl, ◌↔◌, true, [], ◌∷◌, ◌++◌, arith}
use griya_maya.Text.{Str, str_eq, has_prefix}

str_eq→eq : (s t : Str) → str_eq s t ≡ true → s ≡ t
unfolding str_eq
str_eq→eq [] [] h = refl
str_eq→eq [] (d ∷ t) h = cc
str_eq→eq (c ∷ s) [] h = cc
str_eq→eq (c ∷ s) (d ∷ t) h = ground (arith, str_eq→eq s t)

pub str_eq_refl : (s : Str) → str_eq s s ≡ true
unfolding str_eq
str_eq_refl [] = refl
str_eq_refl (c ∷ s) = ground (arith, str_eq_refl s)

pub str_eq_iff : (s t : Str) → (str_eq s t ≡ true) ↔ (s ≡ t)
str_eq_iff s t = (str_eq→eq s t, λ e. rw e (str_eq_refl t))

pub has_prefix-append : (p s : Str) → has_prefix p (p ++ s) ≡ true
unfolding has_prefix
has_prefix-append [] s = refl
has_prefix-append (c ∷ p) s = ground (arith, has_prefix-append p s)

pub has_prefix_iff : (p s : Str) → has_prefix p s ≡ true → (t : Str) × (s ≡ p ++ t)
unfolding has_prefix
has_prefix_iff [] s h = (s, refl)
has_prefix_iff (c ∷ p) [] h = cc
has_prefix_iff (c ∷ p) (d ∷ s) h =
    let (t, e) = has_prefix_iff p s (ground arith) in (t, ground (arith))

pub str_eq_comm : (s t : Str) → str_eq s t ≡ str_eq t s
unfolding str_eq
str_eq_comm [] [] = refl
str_eq_comm [] (d ∷ t) = refl
str_eq_comm (c ∷ s) [] = refl
str_eq_comm (c ∷ s) (d ∷ t) = ground (arith, str_eq_comm s t)
