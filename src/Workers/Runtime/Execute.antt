-- ===== src/Workers/Runtime/Execute.antt =====
-- `execute_claim`, `_handle_failure`, `_handle_pause` and `_dead_letter_claim` of
-- skrift/workers/runtime.py.
-- A claim from the in-memory queue holds the envelope of the queue's own entry, so that what the
-- runtime writes to it stands in the entry too (`write_back`). An inline run holds an envelope of
-- its own.
-- A run has two halves: up to the call of the handler, and from the handler's end (`follow`), where
-- the runtime is what `meanwhile` made of it. A write of another task to the envelope of a claimed
-- job is not seen by its run.
-- The three methods call `execute_claim` again as the last thing they do, so a run is a
-- loop of `execute_once`, on fuel.
use skrift.Prelude.{
  ℕ, zero, suc, ◌+◌, ◌-◌, String, Bool, true, false, ◌||◌, Option, none, some, List, [], ◌∷◌, ◌++◌,
  ℕ_beq, string_beq, leb, if◌then◌else◌, or_else, Result, ok, raise,
}
use Prim.Native.String.{◌++◌ as ◌^◌}
use skrift.Workers.Job.{JobEnvelope, ClaimedJob}
use skrift.Workers.Queue.{QueueError, QueueEntry, InMemoryQueue, find, store}
use skrift.Workers.Queue.Settle.{ack, nack}
use skrift.Workers.DeadLetter.{
  DeadLetterCause, retries_exhausted, permanent_failure, reclaim_loop, DeadJobAttempt,
}
use skrift.Workers.Runtime.{
  submitted, running, paused, completed, is_paused, JobState, job_claimed, job_started, job_paused,
  job_resumed, job_completed, job_failed, Pause, Outcome, returned, asked, interrupted,
  run_interrupted, raised_permanent, raised, RuntimeError, unknown_job_type, queue_error,
  out_of_fuel, HandlerDescriptor, Environment, Runtime, new_state, now, set_state, get_job_state,
  emit_lifecycle, retry_delay, attempt_from_exception, dead_letter,
}

-- The call ends, or it calls `execute_claim` again.
pub data Next (P : Type 0) : Type 0 where
  done : Result RuntimeError (Unit {0}) → Next P
  again : ClaimedJob P → Next P

abbrev pub failure_cause : Bool → DeadLetterCause
failure_cause permanent = if permanent then permanent_failure else retries_exhausted

module _ {P : Type 0} where
  abbrev pub history_of : Option (JobState P) → List (DeadJobAttempt P)
  history_of none = []
  history_of (some state) = state.attempt_history

  abbrev pub with_job : InMemoryQueue P → JobEnvelope P → Option (QueueEntry P) → InMemoryQueue P
  with_job q job none = q
  with_job q job (some entry) = store q job.queue job.id (record entry { job = job })

  unfoldable pub write_back : Bool → Runtime P → JobEnvelope P → Runtime P
  unfolding find store
  write_back inline r job =
      if inline
      then r
      else record r { queue = with_job r.queue job (find r.queue job.queue job.id) }

  -- An exception of the queue ends the call.
  abbrev pub settled :
      Runtime P
      → InMemoryQueue P × Result QueueError (Unit {0})
      → Runtime P × Result RuntimeError (Unit {0})
  settled r (q, ok _) = (record r { queue = q }, ok tt)
  settled r (q, raise _) = (record r { queue = q }, raise queue_error)

  abbrev pub inline_claim : Runtime P → JobEnvelope P → ℕ → ClaimedJob P
  inline_claim r job time = record { job = job; token = "inline"; claimed_at = time }

  -- What is done only if the step before it returned.
  abbrev pub and_then :
      Runtime P × Result RuntimeError (Unit {0})
      → (Runtime P → Runtime P × Next P)
      → Runtime P × Next P
  and_then (r, ok _) rest = rest r
  and_then (r, raise err) rest = (r, done (raise err))

  abbrev pub ends : Runtime P × Result RuntimeError (Unit {0}) → Runtime P × Next P
  ends (r, result) = (r, done result)

module _ {P : Type 0} (env : Environment P) where
  abbrev pub ack_claim :
      Bool → Runtime P → ClaimedJob P → Runtime P × Result RuntimeError (Unit {0})
  ack_claim inline r claimed =
      if inline
      then (r, ok tt)
      else settled r (ack r.queue claimed.job.queue claimed.job.id claimed.token)

  abbrev pub nack_claim :
      Bool → Runtime P → ClaimedJob P → Option ℕ → Bool → Runtime P × Result RuntimeError (Unit {0})
  nack_claim inline r claimed retry_at dead =
      if inline
      then (r, ok tt)
      else settled (record r { ticks = suc (suc r.ticks) })
          (nack r.queue claimed.job.queue claimed.job.id claimed.token retry_at dead
            (λ n. env.clock (r.ticks + n)))

  unfoldable pub dead_letter_claim :
      Bool → Runtime P → ClaimedJob P → DeadLetterCause → String → Runtime P × Next P
  unfolding nack dead_letter
  dead_letter_claim inline r claimed cause error =
      and_then (nack_claim inline r claimed none true)
        λ r'. ends (dead_letter env r' claimed.job cause [] error)

  abbrev pub retry_later :
      Bool
      → Runtime P
      → ClaimedJob P
      → HandlerDescriptor P
      → String
      → List (DeadJobAttempt P)
      → Runtime P × Next P
  retry_later inline r claimed descriptor error attempts =
      let job = claimed.job in
      let retry_at = now env r + retry_delay env descriptor.retry_policy job.attempt r.ticks in
      let state = record (new_state env job submitted job.attempt) {
        last_error = some error;
        attempt_history = attempts;
      } in
      let waiting = set_state env (record r { ticks = suc r.ticks }) state in
      if inline
      then (
        record waiting { ticks = suc waiting.ticks },
        again (inline_claim waiting job (now env waiting)),
      )
      else ends (nack_claim inline waiting claimed (some retry_at) false)

  -- The job is dead-lettered, or it is tried again.
  unfoldable pub conclude_failure :
      Bool
      → Runtime P
      → ClaimedJob P
      → HandlerDescriptor P
      → String
      → List (DeadJobAttempt P)
      → Bool
      → Runtime P × Next P
  unfolding nack dead_letter set_state
  conclude_failure inline r claimed descriptor error attempts permanent =
      if permanent || leb claimed.job.max_attempts claimed.job.attempt
      then and_then (nack_claim inline r claimed none true)
          (λ r'. ends (dead_letter env r' claimed.job (failure_cause permanent) attempts error))
      else retry_later inline r claimed descriptor error attempts

  -- `str(exc)` is `text`.
  unfoldable pub handle_failure :
      Bool
      → Runtime P
      → ClaimedJob P
      → HandlerDescriptor P
      → String
      → String
      → ℕ
      → Bool
      → Runtime P × Next P
  unfolding conclude_failure get_job_state emit_lifecycle
  handle_failure inline r claimed descriptor exception_type text started_at permanent =
      let job = claimed.job in
      let error = exception_type ^ (": " ^ text) in
      let attempt =
        attempt_from_exception env r job exception_type text started_at claimed.claimed_at in
      let (read, previous) = get_job_state env (record r { ticks = suc r.ticks }) job.id in
      conclude_failure inline (emit_lifecycle env read job_failed job (some error)) claimed
        descriptor error (history_of previous ++ attempt ∷ []) permanent

  abbrev pub resume_inline : Runtime P → JobEnvelope P → Option ℕ → Runtime P × Next P
  resume_inline r job none = (r, done (ok tt))
  resume_inline r job (some resume_at) =
      let resumed = emit_lifecycle env r job_resumed job none in
      (
        record resumed { ticks = suc resumed.ticks },
        again (inline_claim resumed job (now env resumed)),
      )

  -- `far` is the last time that the clock can name.
  unfoldable pub handle_pause : ℕ → Bool → Runtime P → ClaimedJob P → Pause P → Runtime P × Next P
  unfolding write_back nack emit_lifecycle set_state
  handle_pause far inline r claimed pause =
      let job = record claimed.job {
        attempt = claimed.job.attempt - 1;
        scheduled_for = pause.resume_at;
      } in
      let r1 = write_back inline r job in
      let state = record (new_state env job paused job.attempt) { paused_state = pause.state } in
      let r2 = emit_lifecycle env (set_state env r1 state) job_paused job none in
      if inline
      then resume_inline r2 job pause.resume_at
      else ends (
          nack_claim inline r2 (record claimed { job = job }) (some (or_else pause.resume_at far))
            false)

  unfoldable pub complete_claim : Bool → Runtime P → ClaimedJob P → P → Runtime P × Next P
  unfolding ack emit_lifecycle set_state
  complete_claim inline r claimed result = and_then (ack_claim inline r claimed) λ r1.
      let state = record (new_state env claimed.job completed claimed.job.attempt) {
        result = some result;
      } in
      (emit_lifecycle env (set_state env r1 state) job_completed claimed.job none, done (ok tt))

  -- What is done once the handler has ended.
  unfoldable pub follow :
      ℕ → Bool → Runtime P → ClaimedJob P → HandlerDescriptor P → ℕ → Outcome P → Runtime P × Next P
  unfolding handle_failure handle_pause complete_claim
  follow far inline r claimed descriptor started_at (returned result) =
      complete_claim inline r claimed result
  follow far inline r claimed descriptor started_at (asked pause) =
      handle_pause far inline r claimed pause
  follow far inline r claimed descriptor started_at (raised_permanent exception_type text) =
      handle_failure inline r claimed descriptor exception_type text started_at true
  follow far inline r claimed descriptor started_at (raised exception_type text) =
      handle_failure inline r claimed descriptor exception_type text started_at false
  follow far inline r claimed descriptor started_at interrupted = (r, done (raise run_interrupted))

  abbrev pub paused_state_of : Option (JobState P) → P
  paused_state_of none = env.empty_dict
  paused_state_of (some state) = state.paused_state

  abbrev pub was_paused : Option (JobState P) → Bool
  was_paused none = false
  was_paused (some state) = is_paused state.status

  -- The claim is announced; what the job had paused with is read.
  unfoldable pub announce_claim : Bool → Runtime P → JobEnvelope P → Runtime P × P
  unfolding write_back get_job_state emit_lifecycle
  announce_claim inline r job =
      let r1 = write_back inline r job in
      let (r2, previous) = get_job_state env (record r1 { ticks = suc r1.ticks }) job.id in
      let r3 = emit_lifecycle env r2 job_claimed job none in
      let r4 = if was_paused previous then emit_lifecycle env r3 job_resumed job none else r3 in
      (r4, paused_state_of previous)

  unfoldable pub mark_running : Runtime P → JobEnvelope P → P → Runtime P
  unfolding emit_lifecycle set_state
  mark_running r job paused_state =
      let state = record (new_state env job running job.attempt) { paused_state = paused_state } in
      emit_lifecycle env (set_state env r state) job_started job none

  unfoldable pub start_claim : Bool → Runtime P → JobEnvelope P → Runtime P
  unfolding announce_claim mark_running
  start_claim inline r job =
      let (announced, paused_state) = announce_claim inline r job in
      mark_running announced job paused_state

  unfoldable pub run_claim :
      ℕ → Bool → Runtime P → ClaimedJob P → HandlerDescriptor P → Runtime P × Next P
  unfolding start_claim get_job_state follow
  run_claim far inline r claimed descriptor =
      let job = record claimed.job { attempt = suc claimed.job.attempt } in
      let started_at = now env r in
      let (r1, state) = get_job_state env (start_claim inline r job) job.id in
      follow far inline (descriptor.meanwhile job r1) (record claimed { job = job }) descriptor
        started_at (descriptor.func job (paused_state_of state) (now env r1))

  unfoldable pub execute_once : ℕ → Bool → Runtime P → ClaimedJob P → Runtime P × Next P
  unfolding dead_letter_claim run_claim
  execute_once far inline r claimed =
      if leb claimed.job.max_reclaims claimed.job.reclaim_count
      then dead_letter_claim inline r claimed reclaim_loop
          ("Job reclaimed " ^ (env.number_text claimed.job.reclaim_count ^ " times"))
      else elim (env.handlers claimed.job.job_type) [
        | none ↦ (r, done (raise unknown_job_type))
        | some descriptor ↦ run_claim far inline r claimed descriptor
      ]

  -- After the first round a run is inline.
  unfoldable pub execute_claim :
      ℕ → ℕ → Bool → Runtime P → ClaimedJob P → Runtime P × Result RuntimeError (Unit {0})
  unfolding execute_once
  execute_claim zero far inline r claimed = (r, raise out_of_fuel)
  execute_claim (suc fuel) far inline r claimed =
      let (r', next) = execute_once far inline r claimed in
      elim next [
        | done result ↦ (r', result)
        | again claimed' ↦ execute_claim fuel far true r' claimed'
      ]
