-- ===== src/Worker/Cleanup/Drain.antt =====
-- A round in which no message has to be tried again leaves none of the objects asked for.
use griya_maya.Base.{
  ◌+◌, ◌≤◌, ◌≡◌, refl, ap, Bool, true, false, not, ◌||◌, Option, none, some, List, [], ◌∷◌, ◌++◌,
  any, length, if◌then◌else◌, arith, inl, inr, Bool-cases, Option-cases,
}
use griya_maya.Text.{Str, blank}
use griya_maya.Effect.{World, ok}
use griya_maya.Effect.Laws.{Post, Post-seq, Post-weaken, Post-answers}
use griya_maya.Domain.Jobs.{PageCleanupJob}
use griya_maya.Cloud.{Store}
use griya_maya.Worker.Bucket.Laws.{has_object, Never}
use griya_maya.Worker.Cleanup.{Message, Acks, process, process_batch, settle_message}
use griya_maya.Worker.Cleanup.Laws.{names, Cleaned, process-Post}

abbrev pub job_names : Str → Option PageCleanupJob → Bool
job_names k none = false
job_names k (some job) = names job k

abbrev pub asks : Str → Message → Bool
asks k m = job_names k m.body

module _ (k : Str) (solid : blank k ≡ false) where
  -- an object that is asked for, or is not there, is gone after a message that is acknowledged
  abbrev Gone : Message → World Store → Bool → World Store → Type 0
  Gone m w done v = done ≡ true → (asks k m || not (has_object k w)) ≡ true → has_object k v ≡ false

  Cleaned-Gone :
      (m : Message) (job : PageCleanupJob) (w v : World Store) (done : Bool)
      → m.body ≡ some job
      → Cleaned k job w done v
      → Gone m w done v
  Cleaned-Gone m job w v done e (gone, frame) d h = elim (Bool-cases (names job k)) [
    | inl named ↦ gone d named solid
    | inr other ↦ let same = ap (job_names k) e in ground (arith, frame other, same)
  ]

  process-Gone :
      (m : Message) (w : World Store) → Post (λ done v. Gone m w done v) Never (process m w)
  unfolding process
  process-Gone m w = elim (Option-cases m.body) [
    | inl unread ↦ rw unread (λ d h. ground (arith, h, ap (job_names k) unread))
    | inr (job, e) ↦
        Post-weaken (λ done v. Cleaned k job w done v) (λ done v. Gone m w done v) Never Never
          (process m w) (process-Post k job w m e) (λ done v c. Cleaned-Gone m job w v done e c)
          (λ _ v x. x)
  ]

  -- the same for a round: what it hands back can only grow
  abbrev Emptied : List Message → Acks → World Store → Acks → World Store → Type 0
  Emptied ms out w out' v =
      (length out.retries ≤ length out'.retries)
      × (length out'.retries ≡ length out.retries
          → (any (asks k) ms || not (has_object k w)) ≡ true
          → has_object k v ≡ false)

  retries-settled :
      (m : Message) (done : Bool) (out : Acks)
      → length (settle_message m done out).retries ≡ length out.retries + (if done then 0 else 1)
  retries-settled m true out = omega arith
  retries-settled m false out = snoc _ out.retries
    where
      snoc : {A : Type 0} (x : A) (xs : List A) → length (xs ++ x ∷ []) ≡ length xs + 1
      snoc x [] = omega arith
      snoc x (y ∷ ys) = ground (arith, snoc x ys)

  round :
      (m : Message) (ms : List Message) (out out' : Acks) (w v u : World Store) (done : Bool)
      → Gone m w done v
      → Emptied ms (settle_message m done out) v out' u
      → Emptied (m ∷ ms) out w out' u
  round m ms out out' w v u true g (grew, emptied) = (
    omega (arith, grew),
    (λ e h. elim (Bool-cases (asks k m || not (has_object k w))) [
      | inl now ↦ let gone = g refl now in emptied e (ground (arith, gone))
      | inr later ↦ emptied e (ground arith)
    ]),
  )
  round m ms out out' w v u false g (grew, emptied) =
      let more = retries-settled m false out in
      (omega (arith, grew, more), (λ e h. absurd (omega (arith, grew, more, e))))

  process_batch-Emptied :
      (ms : List Message) (out : Acks) (w : World Store)
      → Post (λ out' v. Emptied ms out w out' v) Never (process_batch ms out w)
  unfolding process_batch
  process_batch-Emptied [] out w = (omega arith, (λ e h. ground (arith, h)))
  process_batch-Emptied (m ∷ ms) out w =
      Post-seq (λ done v. Gone m w done v) (λ out' u. Emptied (m ∷ ms) out w out' u) Never
        (process m w) (λ done. process_batch ms (settle_message m done out)) (process-Gone m w)
        (λ done v g.
          Post-weaken (λ out' u. Emptied ms (settle_message m done out) v out' u)
            (λ out' u. Emptied (m ∷ ms) out w out' u) Never Never
            (process_batch ms (settle_message m done out) v)
            (process_batch-Emptied ms (settle_message m done out) v)
            (λ out' u x. round m ms out out' w v u done g x) (λ _ u x. x))

-- After a round that hands no message back, whatever its calls did, no object is left that one of its
-- messages asks for by key or by prefix, keys of white space apart.
pub process_batch_empties :
    (k : Str) (ms : List Message) (w : World Store) (out : Acks)
    → blank k ≡ false
    → any (asks k) ms ≡ true
    → (process_batch ms (record { acks = []; retries = [] }) w).0 ≡ ok out
    → out.retries ≡ []
    → has_object k (process_batch ms (record { acks = []; retries = [] }) w).1 ≡ false
process_batch_empties k ms w out solid asked answer none_back =
    let start : Acks = record { acks = []; retries = [] } in
    let (_, emptied) =
      (Post-answers (λ out' v. Emptied k solid ms start w out' v) Never (process_batch ms start w)
          (process_batch-Emptied k solid ms start w)).0
        out answer in
    emptied (ap length none_back) (ground (arith, asked))
