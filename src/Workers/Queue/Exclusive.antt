-- ===== src/Workers/Queue/Exclusive.antt =====
-- What a lease is worth: no call of another worker takes the job away before it lapses.
use skrift.Workers.Queue.Lease.{submit_stored-IsLeased}
use skrift.Prelude.{
  ℕ, suc, ◌+◌, ◌<◌, String, ◌≡◌, refl, ap, inl, inr, true, Option, none, some, List, [], ◌∷◌, arith,
  BEq, ◌==◌, ==_iff, ℕ_beq, string_beq, Option-cases, is_some, or_else, Result, ok, any, All,
  if_rule,
}
use skrift.Workers.Job.{JobEnvelope, ClaimedJob, idempotency_payload, same_payload}
use skrift.Workers.Queue.{QueueError, QueueEntry, InMemoryQueue, Clock, find}
use skrift.Workers.Queue.Claim.{release_expired_claims, lease, claim}
use skrift.Workers.Queue.Settle.{held, ack}
use skrift.Workers.Queue.Submit.{prepare, submit}
use skrift.Workers.Queue.Laws.{find-store_self, find-discard_self}
use skrift.Workers.Queue.Selection.{takeable, claim_from-cases, claim_from-finds}
use skrift.Workers.Queue.Steps.{Op, step, run}
use skrift.Workers.Queue.Invariant.{IsValid, run-IsValid, step-IsValid, release-IsValid}
use skrift.Workers.Queue.Lease.{
  IsLeased, Spares, released-IsLeased, store_ne-IsLeased, claim-IsLeased, ack-IsLeased,
  nack-IsLeased, cancel-IsLeased, wake-IsLeased, stats-IsLeased, opened-IsLeased,
}

module _ {P : Type 0} ⦃e : BEq P⦄ {queue id token : String} {until : ℕ} where
  submit-IsLeased :
      (q : InMemoryQueue P) (job : JobEnvelope P) (job_id : Option String) (clock : Clock)
      → IsLeased q queue id token until
      → IsLeased (submit q job job_id clock).0 queue id token until
  unfolding submit prepare
  submit-IsLeased q job job_id clock l =
      elim (Option-cases (find q job.queue (or_else job_id job.id))) [
        | inl gone ↦
            rw (gone, submit)
              (store_ne-IsLeased q job.queue (or_else job_id job.id) _ l
                (λ same. ground (arith, same.0, same.1, l.found)))
        | inr (existing, there) ↦
            rw (there, submit)
              (if_rule
                (λ (r : InMemoryQueue P × Result QueueError (JobEnvelope P)).
                  IsLeased r.0 queue id token until)
                (same_payload (idempotency_payload existing.job)
                  (idempotency_payload (prepare job job_id clock)))
                (opened-IsLeased q job.queue l) (opened-IsLeased q job.queue l))
      ]

  step-IsLeased :
      (q : InMemoryQueue P) (op : Op P)
      → IsValid q
      → IsLeased q queue id token until
      → Spares queue id token until op
      → IsLeased (step q op) queue id token until
  unfolding step
  step-IsLeased q (Op.submit job job_id clock) v l h = submit-IsLeased q job job_id clock l
  step-IsLeased q (Op.submit_stored queue' id' clock) v l h =
      submit_stored-IsLeased q queue' id' clock l
  step-IsLeased q (Op.release now) v l h = released-IsLeased q now l h
  step-IsLeased q (Op.claim queues token' timeout clock) v l h =
      claim-IsLeased q queues token' timeout clock v l h
  step-IsLeased q (Op.ack queue' id' token') v l h = ack-IsLeased q queue' id' token' l h
  step-IsLeased q (Op.nack queue' id' token' retry_at dead clock) v l h =
      nack-IsLeased q queue' id' token' retry_at dead clock l h
  step-IsLeased q (Op.cancel queue' id') v l h = cancel-IsLeased q queue' id' l
  step-IsLeased q (Op.wake queue' id' resume_at clock) v l h =
      wake-IsLeased q queue' id' resume_at clock l
  step-IsLeased q (Op.stats queue' clock) v l h = stats-IsLeased q queue' clock l h

  pub run-IsLeased :
      (q : InMemoryQueue P) (ops : List (Op P))
      → IsValid q
      → IsLeased q queue id token until
      → All (Spares queue id token until) ops
      → IsLeased (run q ops) queue id token until
  unfolding run
  run-IsLeased q [] v l h = l
  run-IsLeased q (op ∷ ops) v l h =
      run-IsLeased (step q op) ops (step-IsValid q v op) (step-IsLeased q op v l h.0) h.1

module _ {P : Type 0} ⦃e : BEq P⦄ (q : InMemoryQueue P) (v : IsValid q) (ops : List (Op P)) where
  -- From a valid queue in which a job is leased to a token until `until`, after any calls that
  -- do not settle the job with that token and read the clock before `until`, the holder's `ack`
  -- succeeds and takes the job out.
  pub ack_in_time :
      (queue id token : String) (until : ℕ)
      → IsLeased q queue id token until
      → All (Spares queue id token until) ops
      → ((ack (run q ops) queue id token).1 ≡ ok tt)
        × (find (ack (run q ops) queue id token).0 queue id ≡ none)
  unfolding ack held
  ack_in_time queue id token until l h =
      let kept = run-IsLeased q ops v l h in
      let mine : held (run q ops) queue id token ≡ some kept.entry =
        ground (arith, kept.found, kept.holder, ==_iff token token) in
      (rw (mine, ack) refl, rw (mine, ack) (find-discard_self (run q ops) queue id))

  -- From a valid queue in which a job is leased to a token until `until`, after any calls that
  -- do not settle the job with that token and read the clock before `until`, no claim that reads
  -- the clock before `until` returns the job.
  pub claim_excluded :
      (queue id token : String) (until : ℕ)
      → IsLeased q queue id token until
      → All (Spares queue id token until) ops
      → (queues : List String) (token' : String) (timeout : ℕ) (clock : Clock) (c : ClaimedJob P)
      → clock 0 < until
      → (claim (run q ops) queues token' timeout clock).1 ≡ some c
      → ¬ ((c.job.queue ≡ queue) × (c.job.id ≡ id))
  unfolding claim lease
  claim_excluded queue id token until l h queues token' timeout clock c early got same =
      let w = run-IsValid q ops v in
      let r = release_expired_claims (run q ops) (clock 0) in
      let w' = release-IsValid (run q ops) w (clock 0) in
      let kept = released-IsLeased (run q ops) (clock 0) (run-IsLeased q ops v l h) early in
      elim (claim_from-cases r token' timeout clock queues 1 w'.keyed) [
        | inl nothing ↦ cc (ap (λ (o : InMemoryQueue P × Option (ClaimedJob P)). o.1) nothing)
        | inr t ↦
            let fits = w'.entry t.queue t.id t.entry t.found in
            ground (
              arith, same.0, same.1, fits.in_queue, fits.named, kept.found, kept.holder, t.found,
              t.free, t.claimed,
            )
      ]

module _ {P : Type 0} (q : InMemoryQueue P) (v : IsValid q) where
  -- What a claim returns from a valid queue stood in one of the named queues and could be taken
  -- (visible, unclaimed, not dead-lettered) after lapsed claims were released, and is leased to
  -- the new token from then on, until the visibility timeout after a reading of the clock.
  pub claim_lem :
      (queues : List String) (token : String) (timeout : ℕ) (clock : Clock) (c : ClaimedJob P)
      → (claim q queues token timeout clock).1 ≡ some c
      → (n : ℕ) × (before : QueueEntry P) × (any (λ x. x == c.job.queue) queues ≡ true)
        × (find (release_expired_claims q (clock 0)) c.job.queue c.job.id ≡ some before)
        × (takeable before (clock n) ≡ true)
        × IsLeased
            (claim q queues token timeout clock).0
            c.job.queue
            c.job.id
            token
            (clock (suc n) + timeout)
  unfolding claim
  claim_lem queues token timeout clock c got =
      let r = release_expired_claims q (clock 0) in
      let w = release-IsValid q v (clock 0) in
      elim (claim_from-cases r token timeout clock queues 1 w.keyed) [
        | inl nothing ↦
            absurd (cc (ap (λ (o : InMemoryQueue P × Option (ClaimedJob P)). o.1) nothing))
        | inr t ↦
            let fits = w.entry t.queue t.id t.entry t.found in
            let same_queue : t.queue ≡ c.job.queue =
              unfold lease in ground (arith, t.claimed, fits.in_queue) in
            let same_id : t.id ≡ c.job.id = unfold lease in ground (arith, t.claimed, fits.named) in
            (
              t.reading,
              t.entry,
              rw (← same_queue) t.listed,
              rw (← same_queue, ← same_id) t.found,
              t.free,
              rw (← same_queue, ← same_id, t.left)
                  (record {
                    entry = lease token (clock (suc t.reading) + timeout) t.entry;
                    found = find-store_self r t.queue t.id _;
                    holder = unfold lease in refl;
                    lapses = unfold lease in refl;
                    alive = unfold lease in ground (arith, t.free);
                  }),
            )
      ]

  -- A claim finds work: if a named queue has a job that may be taken at every reading, after
  -- lapsed claims were released, the claim returns a job.
  pub claim_finds :
      (queues : List String) (token : String) (timeout : ℕ) (clock : Clock) (queue id : String)
      (entry : QueueEntry P)
      → any (λ x. x == queue) queues ≡ true
      → find (release_expired_claims q (clock 0)) queue id ≡ some entry
      → ((m : ℕ) → takeable entry (clock m) ≡ true)
      → is_some (claim q queues token timeout clock).1 ≡ true
  unfolding claim
  claim_finds queues token timeout clock queue id entry listed found free =
      claim_from-finds (release_expired_claims q (clock 0)) token timeout clock queues 1 queue id
        entry listed found free
