-- ===== src/Workers/Runtime.antt =====
-- skrift/workers/runtime.py: the state of the runtime over its in-memory backends, with JobState and
-- the lifecycle events of skrift/workers/models.py. Execute has the run of a claimed job.
-- Reading the clock and drawing an id advance a counter, `ticks`, of which the environment makes
-- times and ids. What the environment holds is fixed: handlers, configuration, clock and chance.
-- The lifecycle stream is the list of its events.
pub mod Execute
pub mod Ended
pub mod Inline
pub mod Held
pub mod Settled
pub mod Refused
pub mod Queued
pub mod Control
pub mod Replay
pub mod Cancelled
mod Tests
use skrift.Prelude.{
  ℕ, suc, ◌+◌, ◌-◌, ◌*◌, max, String, Bool, true, false, Option, none, some, List, [], ◌∷◌, ◌++◌,
  ℕ_beq, string_beq, eqb, if◌then◌else◌, Result, ok, raise,
}
use Prim.Native.String.{◌++◌ as ◌^◌}
use skrift.Prelude.Text.{Text, codes}
use skrift.Prelude.Dict
use skrift.Prelude.Dict.{Dict}
use skrift.Workers.Job.{JobEnvelope, ClaimedJob}
use skrift.Workers.StateStore
use skrift.Workers.StateStore.{StateStore}
use skrift.Workers.Queue.{QueueEntry, InMemoryQueue, find, store}
use skrift.Workers.DeadLetter.{
  DeadLetterCause, DeadLetterState, open_entry, DeadJobAttempt, DeadJobEntry, create,
}

pub data JobStatus : Type 0 where
  submitted claimed running paused completed failed dead_lettered cancelled : JobStatus

-- TERMINAL_JOB_STATUSES
abbrev pub is_terminal : JobStatus → Bool
is_terminal submitted = false
is_terminal claimed = false
is_terminal running = false
is_terminal paused = false
is_terminal completed = true
is_terminal failed = true
is_terminal dead_lettered = true
is_terminal cancelled = true

abbrev pub is_paused : JobStatus → Bool
is_paused submitted = false
is_paused claimed = false
is_paused running = false
is_paused paused = true
is_paused completed = false
is_paused failed = false
is_paused dead_lettered = false
is_paused cancelled = false

pub record JobState (P : Type 0) : Type 0 where
  pub job : JobEnvelope P
  pub status : JobStatus
  pub attempt : ℕ
  pub result : Option P
  pub error : Option String
  pub last_error : Option String
  pub updated_at : ℕ
  pub paused_state : P
  pub attempt_history : List (DeadJobAttempt P)

pub data LifecycleEventType : Type 0 where
  job_submitted job_claimed job_started job_paused job_resumed : LifecycleEventType
  job_completed job_failed job_dead_lettered job_cancelled : LifecycleEventType

pub record WorkerLifecycleEvent : Type 0 where
  pub kind : LifecycleEventType
  pub job_id : String
  pub queue : String
  pub job_type : String
  pub attempt : ℕ
  pub timestamp : ℕ
  pub error : Option String

pub record RetryPolicy : Type 0 where
  pub max_attempts : ℕ
  pub backoff : ℕ
  pub jitter : ℕ

pub record Pause (P : Type 0) : Type 0 where
  pub resume_at : Option ℕ
  pub state : P

-- How a handler ends: it returns, asks for a pause, raises an exception of a type, with a text, or
-- its run is cancelled (`CancelledError`, which is no `Exception`).
pub data Outcome (P : Type 0) : Type 0 where
  returned : P → Outcome P
  asked : Pause P → Outcome P
  raised_permanent raised : String → String → Outcome P
  interrupted : Outcome P

pub data RuntimeError : Type 0 where
  unknown_job_type queue_error callback_error run_interrupted out_of_fuel : RuntimeError
  conflicting_job unsupported_mode unknown_entry force_required : RuntimeError

pub record Runtime (P : Type 0) : Type 0 where
  pub states : StateStore (JobState P)
  pub queue : InMemoryQueue P
  pub dead_letters : Dict String (DeadJobEntry P)
  pub lifecycle : List WorkerLifecycleEvent
  pub ticks : ℕ

-- `func` takes the job, the paused state and the time. A handler is awaited: `meanwhile` is what it
-- and all other tasks do to the runtime until it ends. `dead_callback` says whether it returns.
pub record HandlerDescriptor (P : Type 0) : Type 0 where
  pub func : JobEnvelope P → P → ℕ → Outcome P
  pub meanwhile : JobEnvelope P → Runtime P → Runtime P
  pub queue : String
  pub retry_policy : RetryPolicy
  pub visibility_timeout : ℕ
  pub dead_callback : Option (DeadJobEntry P → Bool)

pub record Environment (P : Type 0) : Type 0 where
  pub handlers : String → Option (HandlerDescriptor P)
  pub clock : ℕ → ℕ
  pub fresh_id : ℕ → String
  pub uniform : ℕ → ℕ → ℕ
  pub worker_id : Option String
  pub trace : String → String → String
  pub number_text : ℕ → String
  pub empty_dict : P
  pub max_reclaims : ℕ
  pub terminal_job_state_ttl : Option ℕ

abbrev pub job_key : String → Text
job_key job_id = codes ("workers:jobs:" ^ job_id)

-- A JobState with the defaults of its fields.
abbrev pub new_state : {P : Type 0} → Environment P → JobEnvelope P → JobStatus → ℕ → JobState P
new_state env job status attempt = record {
  job = job;
  status = status;
  attempt = attempt;
  result = none;
  error = none;
  last_error = none;
  updated_at = 0;
  paused_state = env.empty_dict;
  attempt_history = [];
}

-- 30 days
abbrev pub retention : ℕ
retention = 30 * 86_400 * 1_000_000

module _ {P : Type 0} (env : Environment P) where
  abbrev pub now : Runtime P → ℕ
  now r = env.clock r.ticks

  abbrev pub job_state_ttl : JobState P → Option ℕ
  job_state_ttl state = if is_terminal state.status then env.terminal_job_state_ttl else none

  unfoldable pub set_state : Runtime P → JobState P → Runtime P
  set_state r state = record r {
    states =
        StateStore.set r.states (job_key state.job.id) (record state { updated_at = now r })
          (job_state_ttl state) (now r);
    ticks = suc r.ticks;
  }

  unfoldable pub get_job_state : Runtime P → String → Runtime P × Option (JobState P)
  get_job_state r job_id =
      let (states, found) = StateStore.get r.states (job_key job_id) (now r) in
      (record r { states = states; ticks = suc r.ticks }, found)

  unfoldable pub emit_lifecycle :
      Runtime P → LifecycleEventType → JobEnvelope P → Option String → Runtime P
  emit_lifecycle r kind job error =
      let event : WorkerLifecycleEvent = record {
        kind = kind;
        job_id = job.id;
        queue = job.queue;
        job_type = job.job_type;
        attempt = job.attempt;
        timestamp = now r;
        error = error;
      } in
      record r { lifecycle = r.lifecycle ++ event ∷ []; ticks = suc r.ticks }

  -- `backoff_seconds * max(0, attempt - 1)`, and what chance adds
  abbrev pub retry_delay : RetryPolicy → ℕ → ℕ → ℕ
  retry_delay policy attempt tick =
      let delay = policy.backoff * (attempt - 1) in
      if eqb policy.jitter 0 then delay else delay + env.uniform policy.jitter tick

  -- `finished_at` is not before `started_at`, so that the duration is their difference.
  abbrev pub attempt_from_exception :
      Runtime P → JobEnvelope P → String → String → ℕ → ℕ → DeadJobAttempt P
  attempt_from_exception r job exception_type error started_at claimed_at = record {
    attempt = max job.attempt 1;
    claimed_at = some claimed_at;
    started_at = some started_at;
    finished_at = now r;
    worker_id = env.worker_id;
    duration = some (now r - started_at);
    exception_type = exception_type;
    error = error;
    traceback = env.trace exception_type error;
    metadata = env.empty_dict;
  }

  abbrev pub new_entry :
      Runtime P
      → JobEnvelope P
      → DeadLetterCause
      → List (DeadJobAttempt P)
      → String
      → DeadJobEntry P
  new_entry r job cause attempts error = record {
    id = env.fresh_id r.ticks;
    job = job;
    queue = job.queue;
    job_type = job.job_type;
    cause = cause;
    state = open_entry;
    attempts = attempts;
    created_at = now r;
    updated_at = now r;
    retention_until = some (now r + retention);
    latest_error = error;
    replayed_to_job_id = none;
    discarded_reason = none;
    discarded_at = none;
    replayed_at = none;
  }

  abbrev pub call_dead_callback :
      Option (HandlerDescriptor P) → DeadJobEntry P → Result RuntimeError (Unit {0})
  call_dead_callback none entry = raise unknown_job_type
  call_dead_callback (some descriptor) entry = elim descriptor.dead_callback [
    | none ↦ ok tt
    | some callback ↦ if callback entry then ok tt else raise callback_error
  ]

  unfoldable pub dead_letter :
      Runtime P
      → JobEnvelope P
      → DeadLetterCause
      → List (DeadJobAttempt P)
      → String
      → Runtime P × Result RuntimeError (Unit {0})
  unfolding create set_state emit_lifecycle
  dead_letter r job cause attempts error =
      let entry = new_entry r job cause attempts error in
      let created = record r {
        dead_letters = (create r.dead_letters entry).0;
        ticks = suc r.ticks;
      } in
      let state = record (new_state env job dead_lettered job.attempt) {
        error = some error;
        last_error = some error;
        attempt_history = attempts;
      } in
      (
        emit_lifecycle (set_state created state) job_dead_lettered job (some error),
        call_dead_callback (env.handlers job.job_type) entry,
      )
