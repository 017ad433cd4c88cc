-- ===== src/Service/Cleanup/Scheduling.antt =====
-- What enqueueCleanup leaves on the queue.
use griya_maya.Base.{
  ◌≡◌, refl, ◌∙◌, ap, Bool, true, ◌||◌, List, [], ◌∷◌, ◌++◌, any, if◌then◌else◌, is_empty, arith,
}
use griya_maya.Text.{Str, mem_str, has_prefix}
use griya_maya.Effect.{Exec, World, ok, pure, attempt, exec, ◌>>◌}
use griya_maya.Domain.Jobs.{PageCleanupJob}
use griya_maya.Cloud.{Store}
use griya_maya.Worker.Cleanup.Laws.{names}
use griya_maya.Service.Ports.{Config, configured, present, enqueue_keys, enqueue_prefixes}
use griya_maya.Service.Cleanup.{split_hls_prefixes, enqueue_cleanup}
use griya_maya.Service.Cleanup.Prefixes.{covers, caught-split_hls_prefixes}

-- whether some job on the queue names the object
abbrev pub scheduled : Str → World Store → Bool
scheduled k w = any (λ job. names job k) w.store.cleanup_queue

any-snoc :
    (k : Str) (jobs : List PageCleanupJob) (job : PageCleanupJob)
    → any (λ j. names j k) (jobs ++ job ∷ []) ≡ (any (λ j. names j k) jobs || names job k)
any-snoc k [] job = ground arith
any-snoc k (j ∷ jobs) job = ground (arith, any-snoc k jobs job)

module _ (c : Config) (on : c.cleanup ≡ configured) (k : Str) where
  abbrev send_plain : List Str → Exec Store (Unit {0})
  send_plain plain = if is_empty plain then pure tt else attempt (enqueue_keys c.cleanup plain)

  abbrev send_prefixes : List Str → Exec Store (Unit {0})
  send_prefixes ps = if is_empty ps then pure tt else attempt (enqueue_prefixes c.cleanup ps)

  send_plain-scheduled :
      (plain : List Str) (w : World Store)
      → w.outcomes ≡ []
      → ((send_plain plain w).1.outcomes ≡ [])
        × (scheduled k (send_plain plain w).1 ≡ (scheduled k w || mem_str k plain))
  unfolding enqueue_keys exec mem_str
  send_plain-scheduled [] w h = (h, ground arith)
  send_plain-scheduled (j ∷ js) w h =
      rw (on, h)
        (
          refl,
          ground
              (arith, any-snoc k w.store.cleanup_queue (record { keys = j ∷ js; prefixes = [] })),
        )

  send_prefixes-scheduled :
      (ps : List Str) (w : World Store)
      → w.outcomes ≡ []
      → ((send_prefixes ps w).1.outcomes ≡ [])
        × (scheduled k (send_prefixes ps w).1 ≡ (scheduled k w || any (λ p. has_prefix p k) ps))
  unfolding enqueue_prefixes exec mem_str
  send_prefixes-scheduled [] w h = (h, ground arith)
  send_prefixes-scheduled (j ∷ js) w h =
      rw (on, h)
        (
          refl,
          ground
              (arith, any-snoc k w.store.cleanup_queue (record { keys = []; prefixes = j ∷ js })),
        )

  answers : (ps : List Str) (w : World Store) → (send_prefixes ps w).0 ≡ ok tt
  answers [] w = refl
  answers (p ∷ ps) w = refl

  -- the second message, from the state that the first leaves
  Both : List Str → List Str → World Store → Type 0
  Both plain ps w =
      let m : Exec Store (Unit {0}) = (do send_plain plain; send_prefixes ps) in
      ((m w).0 ≡ ok tt)
      × ((m w).1.outcomes ≡ [])
      × (scheduled k (m w).1 ≡ (scheduled k w || (mem_str k plain || any (λ p. has_prefix p k) ps)))

  second :
      (plain ps : List Str) (w v : World Store)
      → (v.outcomes ≡ []) × (scheduled k v ≡ (scheduled k w || mem_str k plain))
      → ((send_prefixes ps v).0 ≡ ok tt)
        × ((send_prefixes ps v).1.outcomes ≡ [])
        × (scheduled k (send_prefixes ps v).1
            ≡ (scheduled k w || (mem_str k plain || any (λ p. has_prefix p k) ps)))
  second plain ps w v (h, e) =
      let (quiet, sent) = send_prefixes-scheduled ps v h in
      (answers ps v, quiet, ground (arith, sent, e))

  messages-scheduled : (plain ps : List Str) (w : World Store) → w.outcomes ≡ [] → Both plain ps w
  unfolding Both
  messages-scheduled [] ps w h = second [] ps w w (send_plain-scheduled [] w h)
  messages-scheduled (j ∷ js) ps w h =
      second (j ∷ js) ps w (send_plain (j ∷ js) w).1 (send_plain-scheduled (j ∷ js) w h)

  -- With a live queue and no failing call, exactly the objects that go with one of the keys are
  -- scheduled beside those that were.
  pub enqueue_cleanup-scheduled :
      (keys : List Str) (w : World Store)
      → w.outcomes ≡ []
      → ((enqueue_cleanup c keys w).0 ≡ ok tt)
        × (scheduled k (enqueue_cleanup c keys w).1 ≡ (scheduled k w || any (λ j. covers j k) keys))
  unfolding enqueue_cleanup Both
  enqueue_cleanup-scheduled [] w h =
      let there : present c.cleanup ≡ true = ap present on in
      rw (there, enqueue_cleanup) (refl, ground arith)
  enqueue_cleanup-scheduled (j ∷ js) w h =
      let split = split_hls_prefixes (j ∷ js) in
      let there : present c.cleanup ≡ true = ap present on in
      let (answered, quiet, sent) = messages-scheduled split.plain split.prefixes w h in
      rw (there, enqueue_cleanup)
        (answered, sent ∙ ap (λ b. scheduled k w || b) (caught-split_hls_prefixes (j ∷ js) k))
