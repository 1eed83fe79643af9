-- ===== src/Workers/Queue/Steps.antt =====
-- The calls that a queue receives, one after another, and the state that they leave.
use skrift.Prelude.{ℕ, String, Bool, Option, List, [], ◌∷◌, BEq, ℕ_beq, string_beq}
use skrift.Workers.Job.{JobEnvelope}
use skrift.Workers.Queue.{InMemoryQueue, Clock}
use skrift.Workers.Queue.Claim
use skrift.Workers.Queue.Settle
use skrift.Workers.Queue.Stats
use skrift.Workers.Queue.Submit

pub data Op (P : Type 0) : Type 0 where
  submit : JobEnvelope P → Option String → Clock → Op P
  submit_stored : String → String → Clock → Op P
  release : ℕ → Op P
  claim : List String → String → ℕ → Clock → Op P
  ack : String → String → String → Op P
  nack : String → String → String → Option ℕ → Bool → Clock → Op P
  cancel : String → String → Op P
  wake : String → String → Option ℕ → Clock → Op P
  stats : String → Clock → Op P

module _ {P : Type 0} ⦃e : BEq P⦄ where
  -- `release` is `_release_expired_claims`, which the runtime's reaper calls.
  unfoldable pub step : InMemoryQueue P → Op P → InMemoryQueue P
  step q (submit job job_id clock) = (Submit.submit q job job_id clock).0
  step q (submit_stored queue id clock) = (Submit.submit_stored q queue id clock).0
  step q (release now) = Claim.release_expired_claims q now
  step q (claim queues token timeout clock) = (Claim.claim q queues token timeout clock).0
  step q (ack queue id token) = (Settle.ack q queue id token).0
  step q (nack queue id token retry_at dead_letter clock) =
      (Settle.nack q queue id token retry_at dead_letter clock).0
  step q (cancel queue id) = (Settle.cancel q queue id).0
  step q (wake queue id resume_at clock) = (Settle.wake q queue id resume_at clock).0
  step q (stats queue clock) = (Stats.stats q queue clock).0

  unfoldable pub run : InMemoryQueue P → List (Op P) → InMemoryQueue P
  run q [] = q
  run q (op ∷ ops) = run (step q op) ops
