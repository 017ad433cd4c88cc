-- ===== src/Worker/Bucket/Laws/Batches.antt =====
-- The requests of DeleteObjects, batch by batch.
use griya_maya.Base.{
  ℕ, zero, suc, ◌≤◌, refl, ◌∙◌, Bool, true, false, not, ◌||◌, List, [], ◌∷◌, keep, length, take,
  drop, arith, inl, inr, Bool-cases,
}
use griya_maya.Text.{Str, blank, mem_str}
use griya_maya.Text.Membership.{mem_str-keep}
use griya_maya.Effect.{World, Outcome, Result, ok, err, upstream, call, guard}
use griya_maya.Effect.Laws.{Post, Post-call, Post-weaken, Post-seq, world}
use griya_maya.Cloud.{Store}
use griya_maya.Worker.Bucket.{
  remove_objects, stuck_in, delete_batch, delete_batches, delete_objects, counted,
  delete_batch_limit,
}
use griya_maya.Worker.Bucket.Laws.{
  mem_str-remove, stuck_in-mem_str, length-drop, mem_str-split, Deleted, Never, Swept,
}

module _ (k : Str) where
  removed :
      (batch : List Str) (w : World Store) (os : List Outcome) (before : Bool)
      → Deleted k batch before
          (before || stuck_in batch w.store)
          w
          (world (remove_objects batch w.store) os)
  unfolding remove_objects
  removed batch w os before = record {
    stuck = refl;
    shrinks = λ h. ground (arith, mem_str-remove k batch w.store);
    frame = λ h. ground (arith, mem_str-remove k batch w.store);
    clean = λ h. ground arith;
    gone = λ h m. ground (arith, mem_str-remove k batch w.store, stuck_in-mem_str k batch w.store);
  }

  kept :
      (batch : List Str) (w : World Store) (os : List Outcome) (before : Bool)
      → Deleted k batch before (before || true) w (world w.store os)
  kept batch w os before = record {
    stuck = refl;
    shrinks = λ h. h;
    frame = λ h. refl;
    clean = λ h. ground arith;
    gone = λ h m. ground arith;
  }

  unanswered :
      (batch : List Str) (w : World Store) (os : List Outcome) (before : Bool)
      → Deleted k batch before (before || true) w (world (remove_objects batch w.store) os)
  unfolding remove_objects
  unanswered batch w os before = record {
    stuck = refl;
    shrinks = λ h. ground (arith, mem_str-remove k batch w.store);
    frame = λ h. ground (arith, mem_str-remove k batch w.store);
    clean = λ h. ground arith;
    gone = λ h m. ground arith;
  }

  counted-Deleted :
      (batch : List Str) (before : Bool) (w : World Store) (r : Result Bool × World Store)
      → Post
          (λ b w'. Deleted k batch before (before || b) w w')
          (λ e w'. Deleted k batch before (before || true) w w')
          r
      → Post (λ b w'. Deleted k batch before (before || b) w w') Never (counted r)
  counted-Deleted batch before w (ok b, w') h = h
  counted-Deleted batch before w (err e, w') h = h

  delete_batch-Deleted :
      (batch : List Str) (before : Bool) (w : World Store)
      → Post (λ b w'. Deleted k batch before (before || b) w w') Never (delete_batch batch w)
  unfolding delete_batch
  delete_batch-Deleted batch before w =
      counted-Deleted batch before w (call (stuck_in batch) (remove_objects batch) w) (
        Post-call (λ b w'. Deleted k batch before (before || b) w w')
          (λ e w'. Deleted k batch before (before || true) w w') (stuck_in batch)
          (remove_objects batch) w (λ os. removed batch w os before) (λ os. kept batch w os before)
          (λ os. unanswered batch w os before))

  Deleted-trans :
      (n : ℕ) (pending : List Str) {a b c : Bool} {u v w : World Store}
      → Deleted k (take n pending) a b u v
      → Deleted k (drop n pending) b c v w
      → Deleted k pending a c u w
  Deleted-trans n pending first' second = record {
    stuck = second.stuck ∙ first'.stuck;
    shrinks = λ h. second.shrinks (first'.shrinks h);
    frame = λ h.
        second.frame (ground (arith, mem_str-split n k pending))
        ∙ first'.frame (ground (arith, mem_str-split n k pending));
    clean = λ h. first'.clean (second.clean h);
    gone = λ h m. elim (Bool-cases (mem_str k (drop n pending))) [
      | inl later ↦ second.gone h later
      | inr now ↦
          second.shrinks (first'.gone (second.clean h) (ground (arith, mem_str-split n k pending)))
    ];
  }

  done-Deleted : (errs : Bool) (w : World Store) → Deleted k [] errs errs w w
  unfolding mem_str
  done-Deleted errs w = record {
    stuck = refl;
    shrinks = λ h. h;
    frame = λ h. refl;
    clean = λ h. h;
    gone = λ h m. cc;
  }

  delete_batches-Deleted :
      (fuel : ℕ) (pending : List Str) (errs : Bool) (w : World Store)
      → length pending ≤ fuel
      → Post (λ b w'. Deleted k pending errs b w w') Never (delete_batches fuel pending errs w)
  unfolding delete_batches
  delete_batches-Deleted fuel [] errs w h = done-Deleted errs w
  delete_batches-Deleted zero (j ∷ js) errs w h = absurd (omega arith)
  delete_batches-Deleted (suc fuel) (j ∷ js) errs w h =
      Post-seq (λ b v. Deleted k batch errs (errs || b) w v) (λ c u. Deleted k (j ∷ js) errs c w u)
        Never (delete_batch batch w) (λ failed. delete_batches fuel rest (errs || failed))
        (delete_batch-Deleted batch errs w)
        (λ b v d.
          Post-weaken (λ c u. Deleted k rest (errs || b) c v u)
            (λ c u. Deleted k (j ∷ js) errs c w u) Never Never
            (delete_batches fuel rest (errs || b) v)
            (delete_batches-Deleted fuel rest (errs || b) v shorter)
            (λ c u d'.
              Deleted-trans delete_batch_limit (j ∷ js) {a = errs} {b = errs || b} {c = c} {u = w}
                {v = v} {w = u} d d')
            (λ e u x. x))
    where
      batch : List Str
      batch = take delete_batch_limit (j ∷ js)

      rest : List Str
      rest = drop delete_batch_limit (j ∷ js)

      shorter : length rest ≤ fuel
      shorter = omega (arith, length-drop delete_batch_limit (j ∷ js))

length-keep : (p : Str → Bool) (ks : List Str) → length (keep p ks) ≤ length ks
length-keep p [] = omega arith
length-keep p (k ∷ ks) = ground (arith, length-keep p ks)

verdict :
    (k : Str) (keys : List Str) (errs : Bool) (w v : World Store)
    → Deleted k (keep (λ j. not (blank j)) keys) false errs w v
    → Post
        (λ _ u. Swept k keys w true u)
        (λ _ u. Swept k keys w false u)
        (guard (not errs) upstream v)
verdict k keys false w v d = (
  d.stuck,
  d.shrinks,
  (λ m. d.frame (ground (arith, mem_str-keep (λ j. not (blank j)) k keys))),
  (λ _ m b. d.gone refl (ground (arith, mem_str-keep (λ j. not (blank j)) k keys))),
)
verdict k keys true w v d = (
  d.stuck,
  d.shrinks,
  (λ m. d.frame (ground (arith, mem_str-keep (λ j. not (blank j)) k keys))),
  (λ x m b. cc),
)

-- Deleting objects never touches another object, brings none back, and when it reports success no
-- object with one of the keys is left, unless the key is blank, which it skips.
pub delete_objects-Swept :
    (k : Str) (keys : List Str) (w : World Store)
    → Post
        (λ _ w'. Swept k keys w true w')
        (λ _ w'. Swept k keys w false w')
        (delete_objects keys w)
unfolding delete_objects
delete_objects-Swept k keys w =
    Post-seq (λ b v. Deleted k named false b w v) (λ _ v. Swept k keys w true v)
      (λ _ v. Swept k keys w false v) (delete_batches (length keys) named false w)
      (λ errs. guard (not errs) upstream)
      (Post-weaken (λ b v. Deleted k named false b w v) (λ b v. Deleted k named false b w v) Never
        (λ _ v. Swept k keys w false v) (delete_batches (length keys) named false w)
        (delete_batches-Deleted k (length keys) named false w
          (length-keep (λ j. not (blank j)) keys))
        (λ b v d. d) (λ e v x. absurd x))
      (λ b v d. verdict k keys b w v d)
  where
    named : List Str
    named = keep (λ j. not (blank j)) keys
