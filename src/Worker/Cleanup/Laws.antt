-- ===== src/Worker/Cleanup/Laws.antt =====
-- What the cleanup worker has done when it acknowledges a message.
use griya_maya.Base.{
  ◌≡◌, refl, ◌∙◌, ap, Bool, true, false, not, ◌&&◌, ◌||◌, some, List, [], ◌∷◌, ◌++◌, keep, any,
  if◌then◌else◌, is_empty, arith, inl, inr, Bool-cases,
}
use griya_maya.Text.{Str, blank, has_prefix, mem_str}
use griya_maya.Effect.{World, Result, ok, err, pure}
use griya_maya.Effect.Laws.{Post, Post-query, Post-seq, Post-weaken, Post-result}
use griya_maya.Domain.Jobs.{PageCleanupJob}
use griya_maya.Cloud.{Store}
use griya_maya.Worker.Bucket.{object_keys, list_keys, delete_objects}
use griya_maya.Worker.Bucket.Laws.{has_object, Never, Swept}
use griya_maya.Worker.Bucket.Laws.Batches.{delete_objects-Swept}
use griya_maya.Text.Membership.{mem_str-append, mem_str-keep}
use griya_maya.Worker.Cleanup.{Message, expand, acked, delete_job, process}

-- whether a job names an object, by its key or by a prefix
abbrev pub names : PageCleanupJob → Str → Bool
names job k = mem_str k job.keys || any (λ p. has_prefix p k) job.prefixes

abbrev Listed : Str → Str → World Store → List Str → World Store → Type 0
Listed k p w listed w' =
    (w'.store ≡ w.store) × (mem_str k listed ≡ (has_object k w && has_prefix p k))

list_keys-Listed :
    (k p : Str) (w : World Store)
    → Post (λ listed w'. Listed k p w listed w') (λ e w'. w'.store ≡ w.store) (list_keys p w)
unfolding list_keys
list_keys-Listed k p w = elim (Bool-cases (blank p)) [
  | inl empty ↦ rw (empty, list_keys) refl
  | inr full ↦
      rw (full, list_keys)
        (Post-query (λ listed w'. Listed k p w listed w') (λ e w'. w'.store ≡ w.store)
          (λ s. keep (has_prefix p) (object_keys s)) w
          (λ os. (refl, mem_str-keep (has_prefix p) k (object_keys w.store))) (λ os. refl))
]

abbrev Expanded : Str → List Str → List Str → World Store → List Str → World Store → Type 0
Expanded k keys ps w keys' w' =
    (w'.store ≡ w.store)
    × (mem_str k keys' ≡ (mem_str k keys || (has_object k w && any (λ p. has_prefix p k) ps)))

expand-Expanded :
    (k : Str) (keys ps : List Str) (w : World Store)
    → Post
        (λ keys' w'. Expanded k keys ps w keys' w')
        (λ e w'. w'.store ≡ w.store)
        (expand keys ps w)
unfolding expand
expand-Expanded k keys [] w = (refl, ground arith)
expand-Expanded k keys (p ∷ ps) w =
    Post-seq (λ listed v. Listed k p w listed v) (λ keys' v. Expanded k keys (p ∷ ps) w keys' v)
      (λ e v. v.store ≡ w.store) (list_keys p w) (λ listed. expand (keys ++ listed) ps)
      (list_keys-Listed k p w)
      (λ listed v l.
        Post-weaken (λ keys' u. Expanded k (keys ++ listed) ps v keys' u)
          (λ keys' u. Expanded k keys (p ∷ ps) w keys' u) (λ e u. u.store ≡ v.store)
          (λ e u. u.store ≡ w.store) (expand (keys ++ listed) ps v)
          (expand-Expanded k (keys ++ listed) ps v)
          (λ keys' u x. (x.0 ∙ l.0, step listed keys' v l x.1)) (λ e u x. x ∙ l.0))
  where
    step :
        (listed keys' : List Str) (v : World Store)
        → Listed k p w listed v
        → mem_str k keys'
          ≡ (mem_str k (keys ++ listed) || (has_object k v && any (λ q. has_prefix q k) ps))
        → mem_str k keys'
          ≡ (mem_str k keys || (has_object k w && any (λ q. has_prefix q k) (p ∷ ps)))
    step listed keys' v l e =
        let same : has_object k v ≡ has_object k w = ap (λ s. mem_str k (object_keys s)) l.0 in
        ground (arith, mem_str-append k keys listed)

-- the objects that a job names are gone where `finished`, and no other object is touched
abbrev pub Cleaned : Str → PageCleanupJob → World Store → Bool → World Store → Type 0
Cleaned k job w finished w' =
    (finished ≡ true → names job k ≡ true → blank k ≡ false → has_object k w' ≡ false)
    × (names job k ≡ false → has_object k w' ≡ has_object k w)

module _ (k : Str) (job : PageCleanupJob) (w : World Store) where
  none_named : mem_str k [] ≡ false
  unfolding mem_str
  none_named = refl

  unchanged : (v : World Store) → v.store ≡ w.store → Cleaned k job w false v
  unchanged v e = ((λ x n b. cc), (λ n. ap (λ s. mem_str k (object_keys s)) e))

  -- what of the listing matters: a named object is among the keys, or is not there
  module _ (keys : List Str) (v : World Store) (x : Expanded k job.keys job.prefixes w keys v) where
    same : has_object k v ≡ has_object k w
    same = ap (λ s. mem_str k (object_keys s)) x.0

    absent : names job k ≡ true → mem_str k keys ≡ false → has_object k v ≡ false
    absent n m = ground (arith, same, x.1)

    unnamed : names job k ≡ false → mem_str k keys ≡ false
    unnamed n = ground (arith, x.1)

    from_Swept :
        (finished : Bool) (u : World Store) → Swept k keys v finished u → Cleaned k job w finished u
    from_Swept finished u s = (
      (λ f n b. elim (Bool-cases (mem_str k keys)) [
        | inl m ↦ s.3 f m b
        | inr m ↦ s.1 (absent n m)
      ]),
      (λ n. s.2 (unnamed n) ∙ same),
    )

  sweep :
      (keys : List Str) (v : World Store)
      → Expanded k job.keys job.prefixes w keys v
      → Post
          (λ _ u. Cleaned k job w true u)
          (λ _ u. Cleaned k job w false u)
          ((if is_empty keys then pure tt else delete_objects keys) v)
  sweep [] v x = ((λ f n b. absent [] v x n none_named), (λ n. same [] v x))
  sweep (j ∷ js) v x =
      Post-weaken (λ _ u. Swept k (j ∷ js) v true u) (λ _ u. Cleaned k job w true u)
        (λ _ u. Swept k (j ∷ js) v false u) (λ _ u. Cleaned k job w false u)
        (delete_objects (j ∷ js) v) (delete_objects-Swept k (j ∷ js) v)
        (λ _ u s. from_Swept (j ∷ js) v x true u s) (λ _ u s. from_Swept (j ∷ js) v x false u s)

  delete_job-Cleaned :
      Post (λ _ u. Cleaned k job w true u) (λ _ u. Cleaned k job w false u) (delete_job job w)
  unfolding delete_job
  delete_job-Cleaned =
      Post-seq (λ keys v. Expanded k job.keys job.prefixes w keys v) (λ _ u. Cleaned k job w true u)
        (λ _ u. Cleaned k job w false u) (expand job.keys job.prefixes w)
        (λ keys. if is_empty keys then pure tt else delete_objects keys)
        (Post-weaken (λ keys v. Expanded k job.keys job.prefixes w keys v)
          (λ keys v. Expanded k job.keys job.prefixes w keys v) (λ e v. v.store ≡ w.store)
          (λ _ u. Cleaned k job w false u) (expand job.keys job.prefixes w)
          (expand-Expanded k job.keys job.prefixes w) (λ keys v x. x) (λ e v x. unchanged v x))
        (λ keys v x. sweep keys v x)

  acked-Cleaned :
      (r : Result (Unit {0}) × World Store)
      → Post (λ _ u. Cleaned k job w true u) (λ _ u. Cleaned k job w false u) r
      → Post (λ done u. Cleaned k job w done u) Never (acked r)
  acked-Cleaned (ok a, u) h = h
  acked-Cleaned (err e, u) h = h

  pub process-Post :
      (m : Message)
      → m.body ≡ some job
      → Post (λ done u. Cleaned k job w done u) Never (process m w)
  unfolding process
  process-Post m e = rw e (acked-Cleaned (delete_job job w) delete_job-Cleaned)

-- Whatever the outcomes of its calls, the worker answers a readable message; it acknowledges it only
-- if no object that the job names, by its key or by a prefix, is left (keys of white space apart);
-- and acknowledged or not, an object that the job does not name is there exactly if it was.
pub process_sound :
    (k : Str) (job : PageCleanupJob) (m : Message) (w : World Store)
    → m.body ≡ some job
    → (done : Bool) × ((process m w).0 ≡ ok done)
      × ((done && names job k && not (blank k) && has_object k (process m w).1) ≡ false)
      × ((names job k || has_object k (process m w).1) ≡ (names job k || has_object k w))
process_sound k job m w e =
    let (done, answer, cleaned) =
      Post-result (λ done u. Cleaned k job w done u) (process m w) (process-Post k job w m e) in
    (done, answer, as_gone done (process m w).1 cleaned.0, as_frame done (process m w).1 cleaned.1)
  where
    as_gone :
        (done : Bool) (u : World Store)
        → (done ≡ true → names job k ≡ true → blank k ≡ false → has_object k u ≡ false)
        → (done && names job k && not (blank k) && has_object k u) ≡ false
    as_gone false u h = refl
    as_gone true u h = ground (arith, h refl)

    as_frame :
        (done : Bool) (u : World Store)
        → (names job k ≡ false → has_object k u ≡ has_object k w)
        → (names job k || has_object k u) ≡ (names job k || has_object k w)
    as_frame done u h = ground arith
