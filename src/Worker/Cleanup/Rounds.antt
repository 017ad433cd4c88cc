-- ===== src/Worker/Cleanup/Rounds.antt =====
-- A round of the worker settles every message that it leased, each once.
use mathlib.Core.List.{Perm, perm_append_comm, map-append}
use mathlib.Core.List.Perm
use griya_maya.Base.{
  ◌≡◌, Bool, true, false, List, [], ◌∷◌, ◌++◌, map, arith, append_assoc, append-nil,
}
use griya_maya.Text.{Str}
use griya_maya.Effect.{World, ok}
use griya_maya.Effect.Laws.{Post, Post-seq, Post-weaken, Post-result}
use griya_maya.Cloud.{Store}
use griya_maya.Worker.Bucket.Laws.{Never}
use griya_maya.Worker.Cleanup.{Message, Acks, process, process_batch, settle_message}

-- the leases that the call of Ack settles
abbrev pub settled : Acks → List Str
settled out = out.acks ++ map (λ r. r.lease_id) out.retries

abbrev pub leases : List Message → List Str
leases ms = map (λ m. m.lease_id) ms

process_answers : (m : Message) (w : World Store) → Post (λ _ _. Unit {0}) Never (process m w)
unfolding process
process_answers m w = ground arith

settle_message-settled :
    (m : Message) (done : Bool) (out : Acks)
    → Perm (settled (settle_message m done out)) (settled out ++ m.lease_id ∷ [])
settle_message-settled m true out = rw append_assoc (
    rw append_assoc (
      Perm.append (Perm.refl out.acks)
        (perm_append_comm (m.lease_id ∷ []) (map (λ r. r.lease_id) out.retries))))
settle_message-settled m false out = rw map-append (rw (← append_assoc) (Perm.refl _))

process_batch-settled :
    (ms : List Message) (out : Acks) (w : World Store)
    → Post (λ out' _. Perm (settled out') (settled out ++ leases ms)) Never (process_batch ms out w)
unfolding process_batch
process_batch-settled [] out w = rw append-nil (Perm.refl _)
process_batch-settled (m ∷ ms) out w =
    Post-seq (λ _ _. Unit {0}) (λ out' _. Perm (settled out') (settled out ++ leases (m ∷ ms)))
      Never (process m w) (λ done. process_batch ms (settle_message m done out))
      (process_answers m w)
      (λ done v _.
        Post-weaken
          (λ out' _. Perm (settled out') (settled (settle_message m done out) ++ leases ms))
          (λ out' _. Perm (settled out') (settled out ++ leases (m ∷ ms))) Never Never
          (process_batch ms (settle_message m done out) v)
          (process_batch-settled ms (settle_message m done out) v)
          (λ out' u h. Perm.trans h (moved done)) (λ e u x. x))
  where
    moved :
        (done : Bool)
        → Perm (settled (settle_message m done out) ++ leases ms) (settled out ++ leases (m ∷ ms))
    moved done =
        rw (← append_assoc (settled out) (m.lease_id ∷ []) (leases ms))
          (Perm.append (settle_message-settled m done out) (Perm.refl (leases ms)))

-- A round never fails, and the leases that it acknowledges or hands back are those of the messages
-- it was given, each as often.
pub process_batch_settles :
    (ms : List Message) (w : World Store)
    → (out : Acks) × ((process_batch ms (record { acks = []; retries = [] }) w).0 ≡ ok out)
      × Perm (settled out) (leases ms)
process_batch_settles ms w =
    Post-result (λ out _. Perm (settled out) (leases ms))
      (process_batch ms (record { acks = []; retries = [] }) w)
      (process_batch-settled ms (record { acks = []; retries = [] }) w)
