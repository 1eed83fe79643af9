-- ===== src/Workers/Runtime/Queued.antt =====
-- How the run of a job that was claimed from the queue ends, whatever the runtime is when the
-- handler has ended.
use skrift.Prelude.{ℕ, ◌⊎◌, inl, inr, false, ℕ_beq, string_beq}
use skrift.Prelude.Text.{text_beq}
use skrift.Workers.Job.{ClaimedJob}
use skrift.Workers.Queue.Settle.{held}
use skrift.Workers.Runtime.{Outcome, HandlerDescriptor, Environment, Runtime}
use skrift.Workers.Runtime.Execute.{follow}
use skrift.Workers.Runtime.Held.{IsHeld, IsRefused, held-cases}
use skrift.Workers.Runtime.Settled.{IsSettled, follow-IsSettled}
use skrift.Workers.Runtime.Refused.{refusal, follow-IsRefused}

module _ {P : Type 0} (env : Environment P) where
  -- Let the handler of a job that was claimed from the queue have ended, by returning, asking for
  -- a pause, raising an exception or being cancelled; the runtime may be any by then. If the
  -- queue's entry of the job is still leased to the claim's token, the call is over, and: after a
  -- result the job left the queue and is stored as completed; after a pause it is stored as paused
  -- and back in the queue, to be claimed at the pause's time; after a permanent failure, or
  -- another one with no attempts left, it is stored and marked as dead-lettered, and the
  -- dead-letter store has an entry for it with that cause; after a failure with attempts left it
  -- is stored as submitted and back in the queue, to be claimed when the delay of its policy is
  -- over, counted from a reading of the clock after the handler's end; after a cancellation the
  -- exception ends the call and the claim is still held. If the entry is not leased to the token
  -- any more, an exception ends the call, the queue's or that of the cancellation, every entry of
  -- the queue keeps its lease, time and mark, and nothing is dead-lettered.
  pub follow-IsAnswered :
      (far : ℕ) (r : Runtime P) (claimed : ClaimedJob P) (descriptor : HandlerDescriptor P)
      (started_at : ℕ) (outcome : Outcome P)
      → let x = follow env far false r claimed descriptor started_at outcome in
        (IsHeld r claimed.job claimed.token
          × IsSettled env far r.ticks claimed descriptor outcome x)
        ⊎ ((¬ IsHeld r claimed.job claimed.token) × IsRefused (refusal outcome) r x)
  follow-IsAnswered far r claimed descriptor started_at outcome =
      elim (held-cases r claimed.job claimed.token) [
        | inl held ↦
            inl (held, follow-IsSettled env far r claimed descriptor started_at outcome held)
        | inr (other, lost) ↦
            inr (other, follow-IsRefused env far r claimed descriptor started_at outcome other lost)
      ]
