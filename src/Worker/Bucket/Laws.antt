-- ===== src/Worker/Bucket/Laws.antt =====
-- What deleting objects does to the bucket.
pub mod Batches
use griya_maya.Base.{
  ℕ, zero, suc, ◌-◌, ◌≤◌, ◌≡◌, refl, sym, ◌∙◌, ap, Bool, true, false, not, ◌&&◌, ◌||◌, List, [],
  ◌∷◌, ◌++◌, map, keep, length, take, drop, arith, inl, inr, Bool-cases,
}
use griya_maya.Text.{Str, str_eq, blank, mem_str}
use griya_maya.Text.Laws.{str_eq_iff}
use griya_maya.Text.Membership.{mem_str-append, mem_str-keep}
use griya_maya.Effect.{World, Error, Outcome, Result, ok, err, upstream, call, guard}
use griya_maya.Effect.Laws.{Post, Post-call, Post-weaken, Post-seq, world}
use griya_maya.Cloud.{Store}
use griya_maya.Worker.Bucket.{
  object_keys, remove_objects, stuck_in, delete_batch, delete_batches, delete_objects, counted,
  delete_batch_limit,
}

-- whether an object of that key is in the bucket
abbrev pub has_object : Str → World Store → Bool
has_object k w = mem_str k (object_keys w.store)

mem_str-keep_key :
    (f : Str → Bool) (k : Str) (os : List (Str × Str))
    → mem_str k (map (λ o. o.0) (keep (λ o. f o.0) os)) ≡ (mem_str k (map (λ o. o.0) os) && f k)
unfolding mem_str
mem_str-keep_key f k [] = refl
mem_str-keep_key f k ((j, text) ∷ os) = elim (Bool-cases (str_eq j k)) [
  | inl same ↦
      rw ((str_eq_iff j k).0 same) (ground (arith, mem_str-keep_key f k os, (str_eq_iff k k)))
  | inr other ↦ ground (arith, mem_str-keep_key f k os)
]

mem_str-remove :
    (k : Str) (batch : List Str) (s : Store)
    → mem_str k (object_keys (remove_objects batch s))
      ≡ (mem_str k (object_keys s) && (not (mem_str k batch) || mem_str k s.stuck))
unfolding remove_objects
mem_str-remove k batch s =
    mem_str-keep_key (λ j. not (mem_str j batch) || mem_str j s.stuck) k s.objects

-- a request that is answered with no error left none of its keys
stuck_in-mem_str :
    (k : Str) (batch : List Str) (s : Store)
    → stuck_in batch s ≡ false
    → mem_str k batch ≡ true
    → mem_str k s.stuck ≡ false
unfolding stuck_in mem_str
stuck_in-mem_str k [] s h m = cc
stuck_in-mem_str k (j ∷ batch) s h m = elim (Bool-cases (str_eq j k)) [
  | inl same ↦ rw (← (str_eq_iff j k).0 same) (ground arith)
  | inr other ↦ stuck_in-mem_str k batch s (ground arith) (ground arith)
]

take-append-drop : (n : ℕ) (xs : List Str) → take n xs ++ drop n xs ≡ xs
take-append-drop zero xs = refl
take-append-drop (suc n) [] = refl
take-append-drop (suc n) (x ∷ xs) = ap (λ ys. x ∷ ys) (take-append-drop n xs)

length-drop : (n : ℕ) (xs : List Str) → length (drop n xs) ≡ length xs - n
length-drop zero xs = omega arith
length-drop (suc n) [] = omega arith
length-drop (suc n) (x ∷ xs) = omega (arith, length-drop n xs)

mem_str-split :
    (n : ℕ) (k : Str) (xs : List Str)
    → mem_str k xs ≡ (mem_str k (take n xs) || mem_str k (drop n xs))
mem_str-split n k xs =
    ap (mem_str k) (sym (take-append-drop n xs)) ∙ mem_str-append k (take n xs) (drop n xs)

-- What a run of requests for the keys `pending` has done to the object `k`, where the errors so
-- far are `before` and those in the end `after`.
pub record Deleted (k : Str) (pending : List Str) (before after : Bool) (w w' : World Store)
    : Type 0 where
  pub stuck : w'.store.stuck ≡ w.store.stuck
  pub shrinks : has_object k w ≡ false → has_object k w' ≡ false
  pub frame : mem_str k pending ≡ false → has_object k w' ≡ has_object k w
  pub clean : after ≡ false → before ≡ false
  pub gone : after ≡ false → mem_str k pending ≡ true → has_object k w' ≡ false

abbrev pub Never : Error → World Store → Type 0
Never e w = ⊥

-- What DeleteObjects has done to the object `k`, for every list of outcomes.
abbrev pub Swept : Str → List Str → World Store → Bool → World Store → Type 0
Swept k keys w success w' =
    (w'.store.stuck ≡ w.store.stuck)
    × (has_object k w ≡ false → has_object k w' ≡ false)
    × (mem_str k keys ≡ false → has_object k w' ≡ has_object k w)
    × (success ≡ true → mem_str k keys ≡ true → blank k ≡ false → has_object k w' ≡ false)
