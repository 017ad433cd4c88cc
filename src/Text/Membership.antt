-- ===== src/Text/Membership.antt =====
-- Membership of a text in a list, where it is computed as Go's maps and loops do.
use griya_maya.Base.{
  ◌≡◌, refl, Bool, ◌&&◌, ◌||◌, List, [], ◌∷◌, ◌++◌, keep, arith, inl, inr, Bool-cases,
}
use griya_maya.Text.{Str, str_eq, mem_str}
use griya_maya.Text.Laws.{str_eq_iff}

pub mem_str-append :
    (k : Str) (xs ys : List Str) → mem_str k (xs ++ ys) ≡ (mem_str k xs || mem_str k ys)
unfolding mem_str
mem_str-append k [] ys = refl
mem_str-append k (x ∷ xs) ys = ground (arith, mem_str-append k xs ys)

pub mem_str-keep :
    (p : Str → Bool) (k : Str) (ks : List Str) → mem_str k (keep p ks) ≡ (mem_str k ks && p k)
unfolding mem_str
mem_str-keep p k [] = refl
mem_str-keep p k (j ∷ ks) = elim (Bool-cases (str_eq j k)) [
  | inl same ↦ rw ((str_eq_iff j k).0 same) (ground (arith, mem_str-keep p k ks, str_eq_iff k k))
  | inr other ↦ ground (arith, mem_str-keep p k ks)
]
