-- ===== src/Service/Cleanup/Frame.antt =====
-- What enqueueCleanup leaves alone: it always ends well, and touches nothing but the queue.
use griya_maya.Base.{◌≡◌, refl, ◌∙◌, List, [], ◌∷◌, if◌then◌else◌, is_empty, inl, inr, Bool-cases}
use griya_maya.Text.{Str}
use griya_maya.Effect.{Exec, World, ok, err, Result, pure, attempt, ◌>>◌}
use griya_maya.Effect.Laws.{Post, Post-exec}
use griya_maya.Cloud.{Store}
use griya_maya.Domain.Jobs.{PageCleanupJob}
use griya_maya.Service.Ports.{
  Config, Queue, live, present, push_job, send_job, enqueue_keys, enqueue_prefixes,
}
use griya_maya.Service.Cleanup.{split_hls_prefixes, enqueue_cleanup}

-- the tables and the bucket are the same
pub record SameRows (s t : Store) : Type 0 where
  pub pages : t.pages ≡ s.pages
  pub chapters : t.chapters ≡ s.chapters
  pub media : t.media ≡ s.media
  pub objects : t.objects ≡ s.objects

SameRows-refl : (s : Store) → SameRows s s
SameRows-refl s = record { pages = refl; chapters = refl; media = refl; objects = refl }

SameRows-trans : (s t u : Store) → SameRows s t → SameRows t u → SameRows s u
SameRows-trans s t u a b = record {
  pages = b.pages ∙ a.pages;
  chapters = b.chapters ∙ a.chapters;
  media = b.media ∙ a.media;
  objects = b.objects ∙ a.objects;
}

SameRows-push_job : (job : PageCleanupJob) (s : Store) → SameRows s (push_job job s)
SameRows-push_job job s = record { pages = refl; chapters = refl; media = refl; objects = refl }

-- whatever the computation answers
abbrev Kept : World Store → Exec Store (Unit {0}) → Type 0
Kept w m = Post (λ _ v. SameRows w.store v.store) (λ _ v. SameRows w.store v.store) (m w)

Kept-send_job : (q : Queue) (job : PageCleanupJob) (w : World Store) → Kept w (send_job q job)
unfolding send_job
Kept-send_job q job w = elim (Bool-cases (live q)) [
  | inl on ↦
      rw (on, send_job)
        (Post-exec (λ _ v. SameRows w.store v.store) (λ _ v. SameRows w.store v.store)
          (push_job job) w (λ os. SameRows-push_job job w.store) (λ os. SameRows-refl w.store)
          (λ os. SameRows-push_job job w.store))
  | inr off ↦ rw (off, send_job) (SameRows-refl w.store)
]

-- the same for a computation whose error is dropped
abbrev Answers : World Store → Exec Store (Unit {0}) → Type 0
Answers w m = ((m w).0 ≡ ok tt) × SameRows w.store (m w).1.store

Answers-attempt : (w : World Store) (m : Exec Store (Unit {0})) → Kept w m → Answers w (attempt m)
Answers-attempt w m h = (refl, of_result (m w) h)
  where
    of_result :
        (r : Result (Unit {0}) × World Store)
        → Post (λ _ v. SameRows w.store v.store) (λ _ v. SameRows w.store v.store) r
        → SameRows w.store r.1.store
    of_result (ok a, v) h = h
    of_result (err e, v) h = h

Answers-then :
    (w : World Store) (m n : Exec Store (Unit {0}))
    → Answers w m
    → Answers (m w).1 n
    → Answers w (m >> n)
Answers-then w m n (a, x) (b, y) =
    rw a (b, SameRows-trans w.store (m w).1.store (n (m w).1).1.store x y)

Answers-keys :
    (q : Queue) (ks : List Str) (w : World Store)
    → Answers w (if is_empty ks then pure tt else attempt (enqueue_keys q ks))
unfolding enqueue_keys
Answers-keys q [] w = (refl, SameRows-refl w.store)
Answers-keys q (k ∷ ks) w =
    Answers-attempt w (enqueue_keys q (k ∷ ks))
      (Kept-send_job q (record { keys = k ∷ ks; prefixes = [] }) w)

Answers-prefixes :
    (q : Queue) (ps : List Str) (w : World Store)
    → Answers w (if is_empty ps then pure tt else attempt (enqueue_prefixes q ps))
unfolding enqueue_prefixes
Answers-prefixes q [] w = (refl, SameRows-refl w.store)
Answers-prefixes q (p ∷ ps) w =
    Answers-attempt w (enqueue_prefixes q (p ∷ ps))
      (Kept-send_job q (record { keys = []; prefixes = p ∷ ps }) w)

pub enqueue_cleanup-kept :
    (c : Config) (keys : List Str) (w : World Store)
    → ((enqueue_cleanup c keys w).0 ≡ ok tt) × SameRows w.store (enqueue_cleanup c keys w).1.store
unfolding enqueue_cleanup
enqueue_cleanup-kept c keys w = elim (Bool-cases (present c.cleanup)) [
  | inl on ↦ elim (Bool-cases (is_empty keys)) [
    | inl none ↦ rw (on, none, enqueue_cleanup) (refl, SameRows-refl w.store)
    | inr some ↦
        let split = split_hls_prefixes keys in
        let plain : Exec Store (Unit {0}) =
          (if is_empty split.plain
            then pure tt
            else attempt (enqueue_keys c.cleanup split.plain)) in
        rw (on, some, enqueue_cleanup)
          (Answers-then w plain
            (if is_empty split.prefixes
              then pure tt
              else attempt (enqueue_prefixes c.cleanup split.prefixes))
            (Answers-keys c.cleanup split.plain w)
            (Answers-prefixes c.cleanup split.prefixes (plain w).1))
  ]
  | inr off ↦ rw (off, enqueue_cleanup) (refl, SameRows-refl w.store)
]
