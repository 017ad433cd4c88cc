-- ===== src/Worker/Cleanup.antt =====
-- internal/cleanup/cleanup.go: the worker that deletes the objects of a job.
pub mod Laws
pub mod Backoff
pub mod Rounds
pub mod Drain
use griya_maya.Base.{
  ℕ, ◌*◌, ◌^◌, min, Bool, true, false, Option, none, some, List, [], ◌∷◌, ◌++◌, if◌then◌else◌,
  is_empty,
}
use griya_maya.Base.Int.{ℤ, pos, negsuc}
use griya_maya.Text.{Str}
use griya_maya.Effect.{Exec, World, Result, ok, err, pure, ◌>>=◌, ◌>>◌}
use griya_maya.Domain.Jobs.{PageCleanupJob}
use griya_maya.Cloud.{Store}
use griya_maya.Worker.Bucket.{list_keys, delete_objects}

-- queue.Message: the body is what json.Unmarshal makes of it, `none` where it fails
pub record Message : Type 0 where
  pub lease_id : Str
  pub body : Option PageCleanupJob
  pub attempts : ℤ

-- queue.Retry
pub record Retry : Type 0 where
  pub lease_id : Str
  pub delay_seconds : ℕ

-- `attempts` where it is not negative, and 0 else
abbrev pub attempts_from_zero : ℤ → ℕ
attempts_from_zero (pos n) = n
attempts_from_zero (negsuc n) = 0

-- backoff: 30 << min(attempts, 7), at most an hour
unfoldable pub backoff : ℤ → ℕ
backoff attempts = min (30 * 2 ^ min (attempts_from_zero attempts) 7) 3600

-- the loop over the prefixes in Worker.process
unfoldable pub expand : List Str → List Str → Exec Store (List Str)
expand keys [] = pure keys
expand keys (p ∷ ps) = do listed ← list_keys p; expand (keys ++ listed) ps

-- an error of the service makes the worker retry
abbrev pub acked : {A : Type 0} → Result A × World Store → Result Bool × World Store
acked (ok a, w) = (ok true, w)
acked (err e, w) = (ok false, w)

unfoldable pub delete_job : PageCleanupJob → Exec Store (Unit {0})
delete_job job = do
  keys ← expand job.keys job.prefixes
  if is_empty keys then pure tt else delete_objects keys

-- Worker.process: true to acknowledge the message and false to try it again
unfoldable pub process : Message → Exec Store Bool
process m w = elim m.body [ none ↦ (ok true, w) | some job ↦ acked (delete_job job w) ]

-- the arguments of Client.Ack
pub record Acks : Type 0 where
  pub acks : List Str
  pub retries : List Retry

abbrev pub settle_message : Message → Bool → Acks → Acks
settle_message m true out = record out { acks = out.acks ++ m.lease_id ∷ [] }
settle_message m false out = record out {
  retries =
      out.retries ++ record { lease_id = m.lease_id; delay_seconds = backoff m.attempts } ∷ [];
}

-- one round of Worker.loop, over the messages that Client.Pull has leased
unfoldable pub process_batch : List Message → Acks → Exec Store Acks
process_batch [] out = pure out
process_batch (m ∷ ms) out = do done ← process m; process_batch ms (settle_message m done out)
