-- ===== src/Workers/Runtime/Control.antt =====
-- Submission, cancellation and wake-up of skrift/workers/runtime.py.
-- What the payload model makes of a payload is an argument, and so are the mode of execution and
-- what a job's metadata say under `skrift_dispatch`.
use skrift.Prelude.{
  ℕ, suc, ◌+◌, String, Bool, true, false, ◌&&◌, ◌||◌, Option, none, some, [], ◌∷◌, BEq, ◌==◌, ℕ_beq,
  string_beq, ltb, eqb, if◌then◌else◌, or_else, option_eq, Result, ok, raise,
}
use skrift.Workers.Job.{JobEnvelope, idempotency_payload, same_payload}
use skrift.Workers.Queue.{QueueError, InMemoryQueue}
use skrift.Workers.Queue.Submit
use Prim.Native.String.{◌++◌ as ◌^◌}
use skrift.Workers.Queue.Settle
use skrift.Workers.DeadLetter.{poison}
use skrift.Workers.Runtime.{
  JobStatus, submitted, cancelled, is_paused, JobState, job_submitted, job_cancelled, RetryPolicy,
  RuntimeError, queue_error, conflicting_job, unsupported_mode, HandlerDescriptor, Environment,
  Runtime, new_state, now, set_state, get_job_state, emit_lifecycle, attempt_from_exception,
  dead_letter,
}
use skrift.Workers.Runtime.Execute.{execute_claim}

pub data ExecutionMode : Type 0 where
  inline in_process out_of_process other_mode : ExecutionMode

abbrev pub is_inline : ExecutionMode → Bool
is_inline inline = true
is_inline in_process = false
is_inline out_of_process = false
is_inline other_mode = false

abbrev pub is_submitted : JobStatus → Bool
is_submitted submitted = true
is_submitted _ = false

-- The arguments of `submit` that may be left out. A falsy one counts as left out where the code
-- says `or`.
pub record Submission (P : Type 0) : Type 0 where
  pub queue : Option String
  pub retry_policy : Option RetryPolicy
  pub scheduled_for : Option ℕ
  pub correlation_id : Option String
  pub parent_job_id : Option String
  pub visibility_timeout : Option ℕ
  pub replayed_from : Option String
  pub job_id : Option String
  pub metadata : Option P

abbrev pub text_or : Option String → String → String
text_or none default = default
text_or (some s) default = if s == "" then default else s

abbrev pub number_or : Option ℕ → ℕ → ℕ
number_or none default = default
number_or (some n) default = if eqb n 0 then default else n

module _ {P : Type 0} ⦃e : BEq P⦄ (env : Environment P) (fuel far : ℕ) (mode : ExecutionMode) where
  unfoldable pub build_job :
      Runtime P → String → HandlerDescriptor P → P → Submission P → JobEnvelope P
  build_job r job_type descriptor payload s =
      let policy = or_else s.retry_policy descriptor.retry_policy in
      record {
        id = text_or s.job_id (env.fresh_id r.ticks);
        job_type = job_type;
        queue = text_or s.queue descriptor.queue;
        payload = payload;
        submitted_at = now env r;
        attempt = 0;
        max_attempts = policy.max_attempts;
        visibility_timeout = number_or s.visibility_timeout descriptor.visibility_timeout;
        scheduled_for = s.scheduled_for;
        ready_since = none;
        correlation_id = s.correlation_id;
        parent_job_id = s.parent_job_id;
        replayed_from = s.replayed_from;
        reclaim_count = 0;
        max_reclaims = env.max_reclaims;
        metadata = or_else s.metadata env.empty_dict;
      }

  abbrev pub run_inline : Runtime P → JobEnvelope P → Runtime P × Result RuntimeError (Unit {0})
  run_inline r job =
      execute_claim env fuel far true (record r { ticks = suc r.ticks })
        (record { job = job; token = "inline"; claimed_at = now env r })

  abbrev pub queued :
      Runtime P
      → InMemoryQueue P × Result QueueError (JobEnvelope P)
      → Runtime P × Result RuntimeError (Unit {0})
  queued r (q, ok job) = (record r { queue = q; ticks = suc (suc r.ticks) }, ok tt)
  queued r (q, raise _) = (record r { queue = q; ticks = suc (suc r.ticks) }, raise queue_error)

  abbrev pub enqueue : Runtime P → JobEnvelope P → Runtime P × Result RuntimeError (Unit {0})
  enqueue r job = queued r (Submit.submit r.queue job (some job.id) (λ n. env.clock (r.ticks + n)))

  abbrev pub dispatch :
      ExecutionMode → Runtime P → JobEnvelope P → Runtime P × Result RuntimeError (Unit {0})
  dispatch inline r job = run_inline r job
  dispatch in_process r job = enqueue r job
  dispatch out_of_process r job = enqueue r job
  dispatch other_mode r job = (r, raise unsupported_mode)

  abbrev pub announce_submitted : Runtime P → JobEnvelope P → Runtime P
  announce_submitted r job =
      emit_lifecycle env (set_state env r (new_state env job submitted 0)) job_submitted job none

  -- A state under the job's id decides: the same job is not submitted again, another is refused.
  abbrev pub submit_unless :
      Runtime P → JobEnvelope P → Option (JobState P) → Runtime P × Result RuntimeError (Unit {0})
  submit_unless r job none = dispatch mode (announce_submitted r job) job
  submit_unless r job (some existing) =
      if same_payload (idempotency_payload existing.job) (idempotency_payload job)
      then (r, ok tt)
      else (r, raise conflicting_job)

  -- `validated` is the payload, or the exception's type and text. Poison is dead-lettered.
  unfoldable pub submit :
      Runtime P
      → String
      → HandlerDescriptor P
      → Result (String × String) P
      → P
      → Submission P
      → Runtime P × Result RuntimeError (Unit {0})
  unfolding build_job get_job_state set_state emit_lifecycle dead_letter execute_claim
  submit r job_type descriptor (ok payload) raw s =
      let job = build_job r job_type descriptor payload s in
      let (r1, existing) = get_job_state env (record r { ticks = suc r.ticks }) job.id in
      submit_unless r1 job existing
  submit r job_type descriptor (raise (exception_type, text)) raw s =
      let job = build_job r job_type descriptor raw s in
      let r1 = record r { ticks = suc r.ticks } in
      let attempt = record (attempt_from_exception env r1 job exception_type text (now env r1) 0) {
        claimed_at = none;
      } in
      dead_letter env (record r1 { ticks = suc r1.ticks }) job poison (attempt ∷ [])
        (exception_type ^ (": " ^ text))

  abbrev pub cancel_state : Runtime P → String → JobState P → Runtime P × Bool
  cancel_state r job_id state =
      let (q, found) = Settle.cancel r.queue state.job.queue job_id in
      let after = record r { queue = q } in
      if found || is_inline mode
      then (
        emit_lifecycle env (set_state env after (record state { status = cancelled })) job_cancelled
            state.job none,
        true,
      )
      else (after, false)

  abbrev pub cancel_found : Runtime P → String → Option (JobState P) → Runtime P × Bool
  cancel_found r job_id none = (r, false)
  cancel_found r job_id (some state) =
      if is_submitted state.status then cancel_state r job_id state else (r, false)

  unfoldable pub cancel : Runtime P → String → Runtime P × Bool
  unfolding get_job_state set_state emit_lifecycle Settle.cancel
  cancel r job_id = let (r1, found) = get_job_state env r job_id in cancel_found r1 job_id found

  abbrev pub awake :
      Runtime P × Result RuntimeError (Unit {0}) → Runtime P × Result RuntimeError Bool
  awake (r, ok _) = (r, ok true)
  awake (r, raise err) = (r, raise err)

  -- `resume_at is not None and resume_at > utcnow()`
  abbrev pub is_later : Option ℕ → ℕ → Bool
  is_later none time = false
  is_later (some resume_at) time = ltb time resume_at

  -- A later time is waited for.
  abbrev pub wake_inline :
      Runtime P → JobState P → JobEnvelope P → Option ℕ → Runtime P × Result RuntimeError Bool
  wake_inline r state job resume_at =
      let read = record r { ticks = suc r.ticks } in
      let waited =
        if is_later resume_at (now env r)
        then set_state env read (record state { job = job })
        else read in
      awake (run_inline waited job)

  abbrev pub wake_queued :
      Runtime P → JobState P → JobEnvelope P → Runtime P × Result RuntimeError Bool
  wake_queued r state job =
      let again = record (new_state env job submitted state.attempt) {
        paused_state = state.paused_state;
      } in
      awake (enqueue (set_state env r again) job)

  abbrev pub wake_in_queue :
      Runtime P → String → JobState P → Option ℕ → Runtime P × Result RuntimeError Bool
  wake_in_queue r job_id state resume_at =
      let (q, found) =
        Settle.wake r.queue state.job.queue job_id resume_at (λ n. env.clock (r.ticks + n)) in
      (record r { queue = q; ticks = suc (suc r.ticks) }, ok found)

  -- `skrift_dispatch` is what the metadata of the job have under this key.
  abbrev pub wake_found :
      Runtime P
      → String
      → (P → Option String)
      → Option (JobState P)
      → Option ℕ
      → Runtime P × Result RuntimeError Bool
  wake_found r job_id skrift_dispatch none resume_at = (r, ok false)
  wake_found r job_id skrift_dispatch (some state) resume_at =
      let job = record state.job { scheduled_for = resume_at } in
      let kind = skrift_dispatch state.job.metadata in
      if is_paused state.status && option_eq kind (some "inline")
      then wake_inline r state job resume_at
      else if is_paused state.status && option_eq kind (some "inline_then_queued")
      then wake_queued r state job
      else wake_in_queue r job_id state resume_at

  unfoldable pub wake :
      Runtime P → String → (P → Option String) → Option ℕ → Runtime P × Result RuntimeError Bool
  unfolding get_job_state set_state execute_claim Submit.submit Settle.wake
  wake r job_id skrift_dispatch resume_at =
      let (r1, found) = get_job_state env r job_id in
      wake_found r1 job_id skrift_dispatch found resume_at
