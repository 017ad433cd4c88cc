-- ===== src/Pipeline.antt =====
-- The service and the worker together: from a delete to the objects of the bucket.
use griya_maya.Base.{
  ◌≡◌, refl, sym, ap, ◌∙◌, Bool, true, false, ◌||◌, some, List, [], ◌∷◌, map, any, arith,
}
use griya_maya.Text.{Str, blank}
use griya_maya.Effect.{Outcome, ok}
use griya_maya.Effect.Laws.{world}
use griya_maya.Domain.Jobs.{PageCleanupJob}
use griya_maya.Cloud.{Store}
use griya_maya.Service.Ports.{Config, configured}
use griya_maya.Service.Deletes.{delete_chapters}
use griya_maya.Service.Deletes.Rows.{named}
use griya_maya.Service.Deletes.Laws.{goes_with, delete_chapters-scheduled}
use griya_maya.Worker.Bucket.Laws.{has_object}
use griya_maya.Worker.Cleanup.{Message, Acks, process_batch}
use griya_maya.Worker.Cleanup.Laws.{names}
use griya_maya.Worker.Cleanup.Drain.{job_names, asks, process_batch_empties}

any-map :
    {A B : Type 0} (q : B → Bool) (f : A → B) (xs : List A)
    → any q (map f xs) ≡ any (λ x. q (f x)) xs
any-map q f [] = refl
any-map q f (x ∷ xs) = ap (λ b. q (f x) || b) (any-map q f xs)

-- messages that carry these jobs ask for what the jobs name
asks-carried :
    (k : Str) (ms : List Message) (jobs : List PageCleanupJob)
    → map (λ m. m.body) ms ≡ map some jobs
    → any (asks k) ms ≡ any (λ job. names job k) jobs
asks-carried k ms jobs e =
    sym (any-map (job_names k) (λ m. m.body) ms)
    ∙ ap (any (job_names k)) e
    ∙ any-map (job_names k) some jobs

-- Chapters are deleted with a live queue and no failing call; later, whatever the outcomes of its own
-- calls, the worker gets messages that carry the jobs of the queue, and hands none back:
-- then no object that goes with a page of one of the chapters is left, by its own key or as part of a
-- bundle, keys of white space apart.
pub delete_chapters-process_batch :
    (c : Config) (ids : List Str) (s : Store) (k : Str) (ms : List Message) (os : List Outcome)
    (out : Acks)
    → c.cleanup ≡ configured
    → blank k ≡ false
    → goes_with k (named ids) s.pages ≡ true
    → map (λ m. m.body) ms ≡ map some (delete_chapters c ids (world s [])).1.store.cleanup_queue
    → (process_batch ms
        (record { acks = []; retries = [] })
        (world (delete_chapters c ids (world s [])).1.store os)).0
      ≡ ok out
    → out.retries ≡ []
    → has_object k
        (process_batch ms
          (record { acks = []; retries = [] })
          (world (delete_chapters c ids (world s [])).1.store os)).1
      ≡ false
delete_chapters-process_batch c ids s k ms os out on solid theirs carried answer none_back =
    let (_, sent) = delete_chapters-scheduled c ids (world s []) k on refl in
    let queue = (delete_chapters c ids (world s [])).1.store.cleanup_queue in
    let asked : any (asks k) ms ≡ true =
      asks-carried k ms queue carried ∙ sent ∙ ground (arith, theirs) in
    process_batch_empties k ms (world (delete_chapters c ids (world s [])).1.store os) out solid
      asked answer none_back
