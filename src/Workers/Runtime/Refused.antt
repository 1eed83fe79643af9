-- ===== src/Workers/Runtime/Refused.antt =====
-- What follows the end of a handler whose claim was lost meanwhile.
use skrift.Prelude.{sym}
use skrift.Prelude.{if_rule}
use skrift.Workers.Runtime.{queue_error}
use skrift.Prelude.{raise}
use skrift.Prelude.{Option-cases}
use skrift.Prelude.{
  ℕ, suc, ◌+◌, ◌-◌, String, ◌≡◌, refl, ap, ◌∙◌, inl, inr, Bool, true, false, ◌||◌, Option, none,
  some, List, ℕ_beq, string_beq, leb, or_else,
}
use skrift.Prelude.Text.{text_beq}
use skrift.Workers.Job.{JobEnvelope, ClaimedJob}
use skrift.Workers.Queue.{find}
use skrift.Workers.Queue.Laws
use skrift.Workers.Queue.Settle.{held, ack, nack}
use skrift.Workers.DeadLetter.{DeadJobAttempt}
use skrift.Workers.Runtime.{
  submitted, paused, job_paused, retry_delay, Pause, Outcome, returned, asked, interrupted,
  run_interrupted, raised_permanent, raised, RuntimeError, HandlerDescriptor, Environment, Runtime,
  new_state, now, set_state, get_job_state, emit_lifecycle,
}
use skrift.Workers.Runtime.Execute.{
  nack_claim, write_back, conclude_failure, handle_failure, handle_pause, complete_claim, follow,
}
use skrift.Workers.Runtime.Held.{
  IsHeld, IsRefused, held-cases, write_back-gone, write_back-found, write_back-dead_letters,
  token_of, lease_of-write_back,
}

module _ {P : Type 0} where
  -- What ends a call whose claim is lost.
  abbrev pub refusal : Outcome P → RuntimeError
  refusal (returned result) = queue_error
  refusal (asked pause) = queue_error
  refusal (raised_permanent exception_type text) = queue_error
  refusal (raised exception_type text) = queue_error
  refusal interrupted = run_interrupted

module _ {P : Type 0} (env : Environment P) where
  -- A token that the queue refuses ends the call, and changes no lease.
  nack_claim-lost :
      (r : Runtime P) (claimed : ClaimedJob P) (retry_at : Option ℕ) (dead : Bool)
      → held r.queue claimed.job.queue claimed.job.id claimed.token ≡ none
      → nack_claim env false r claimed retry_at dead
        ≡ (record r { ticks = suc (suc r.ticks) }, raise queue_error)
  unfolding nack
  nack_claim-lost r claimed retry_at dead lost = rw (lost, nack) refl

  conclude_failure-IsRefused :
      (r : Runtime P) (claimed : ClaimedJob P) (descriptor : HandlerDescriptor P) (error : String)
      (attempts : List (DeadJobAttempt P)) (permanent : Bool)
      → held r.queue claimed.job.queue claimed.job.id claimed.token ≡ none
      → IsRefused queue_error r
          (conclude_failure env false r claimed descriptor error attempts permanent)
  unfolding conclude_failure set_state
  conclude_failure-IsRefused r claimed descriptor error attempts permanent lost =
      let job = claimed.job in
      let state = record (new_state env job submitted job.attempt) {
        last_error = some error;
        attempt_history = attempts;
      } in
      let waiting = set_state env (record r { ticks = suc r.ticks }) state in
      let retry_at = now env r + retry_delay env descriptor.retry_policy job.attempt r.ticks in
      if_rule (IsRefused queue_error r) (permanent || leb job.max_attempts job.attempt)
        (rw (nack_claim-lost r claimed none true lost) (refl, (λ queue id. refl), refl))
        (rw (nack_claim-lost waiting claimed (some retry_at) false lost)
          (refl, (λ queue id. refl), refl))

  complete_claim-IsRefused :
      (r : Runtime P) (claimed : ClaimedJob P) (result : P)
      → held r.queue claimed.job.queue claimed.job.id claimed.token ≡ none
      → IsRefused queue_error r (complete_claim env false r claimed result)
  unfolding complete_claim ack
  complete_claim-IsRefused r claimed result lost = rw (lost, ack) (refl, (λ queue id. refl), refl)

  write_back-lost :
      (r : Runtime P) (job : JobEnvelope P) (token : String)
      → ¬ IsHeld r job token
      → held (write_back false r job).queue job.queue job.id token ≡ none
  write_back-lost r job token lost = elim (held-cases (write_back false r job) job token) [
    | inr refused ↦ refused.1
    | inl (entry, there, leased) ↦ elim (Option-cases (find r.queue job.queue job.id)) [
      | inl gone ↦ absurd (
          lost (
            entry,
            ap (λ (s : Runtime P). find s.queue job.queue job.id) (sym (write_back-gone r job gone))
                ∙ there,
            leased,
          ))
      | inr (before, was) ↦
          let written = record before { job = job } in
          let same : some written ≡ some entry =
            sym (
              ap (λ (s : Runtime P). find s.queue job.queue job.id)
                (write_back-found r job before was)
              ∙ Laws.find-store_self r.queue job.queue job.id written)
            ∙ there in
          absurd (lost (before, was, ap token_of same ∙ leased))
    ]
  ]

  handle_pause-IsRefused :
      (far : ℕ) (r : Runtime P) (claimed : ClaimedJob P) (pause : Pause P)
      → ¬ IsHeld r claimed.job claimed.token
      → IsRefused queue_error r (handle_pause env far false r claimed pause)
  unfolding handle_pause set_state emit_lifecycle
  handle_pause-IsRefused far r claimed pause lost =
      let job = record claimed.job {
        attempt = claimed.job.attempt - 1;
        scheduled_for = pause.resume_at;
      } in
      let state = record (new_state env job paused job.attempt) { paused_state = pause.state } in
      let waiting =
        emit_lifecycle env (set_state env (write_back false r job) state) job_paused job none in
      rw
        (nack_claim-lost waiting (record claimed { job = job }) (some (or_else pause.resume_at far))
          false (write_back-lost r job claimed.token lost))
        (refl, (λ queue id. lease_of-write_back r job queue id), write_back-dead_letters r job)

  pub follow-IsRefused :
      (far : ℕ) (r : Runtime P) (claimed : ClaimedJob P) (descriptor : HandlerDescriptor P)
      (started_at : ℕ) (outcome : Outcome P)
      → ¬ IsHeld r claimed.job claimed.token
      → held r.queue claimed.job.queue claimed.job.id claimed.token ≡ none
      → IsRefused (refusal outcome) r (follow env far false r claimed descriptor started_at outcome)
  unfolding follow handle_failure get_job_state emit_lifecycle
  follow-IsRefused far r claimed descriptor started_at (returned result) other lost =
      complete_claim-IsRefused r claimed result lost
  follow-IsRefused far r claimed descriptor started_at (asked pause) other lost =
      handle_pause-IsRefused far r claimed pause other
  follow-IsRefused far r claimed descriptor started_at (raised_permanent exception_type text) other
        lost =
      conclude_failure-IsRefused _ claimed descriptor _ _ true lost
  follow-IsRefused far r claimed descriptor started_at (raised exception_type text) other lost =
      conclude_failure-IsRefused _ claimed descriptor _ _ false lost
  follow-IsRefused far r claimed descriptor started_at interrupted other lost =
      (refl, (λ queue id. refl), refl)
