-- ===== src/Workers/Runtime/Replay.antt =====
-- The dead-letter workflow of skrift/workers/runtime.py: an entry is retried as a new job, or
-- discarded.
use skrift.Prelude.{
  ℕ, suc, String, Bool, true, false, not, ◌&&◌, Option, none, some, BEq, ℕ_beq, string_beq,
  if◌then◌else◌, Result, ok, raise,
}
use skrift.Prelude.Dict
use skrift.Workers.Job.{JobEnvelope}
use skrift.Workers.Queue.Submit
use skrift.Workers.Queue.Settle
use skrift.Workers.DeadLetter.{
  DeadLetterCause, retries_exhausted, permanent_failure, reclaim_loop, poison, replayed, discarded,
  DeadJobEntry, save,
}
use skrift.Workers.Runtime.{
  RuntimeError, unknown_job_type, unknown_entry, force_required, HandlerDescriptor, Environment,
  Runtime, now, set_state, emit_lifecycle,
}
use skrift.Workers.Runtime.Execute.{execute_claim}
use skrift.Workers.Runtime.Control.{
  ExecutionMode, is_inline, Submission, build_job, run_inline, enqueue, announce_submitted,
}

module _ {P : Type 0} ⦃e : BEq P⦄ (env : Environment P) (fuel far : ℕ) (mode : ExecutionMode) where
  abbrev pub needs_force : DeadLetterCause → Bool
  needs_force retries_exhausted = false
  needs_force permanent_failure = true
  needs_force reclaim_loop = false
  needs_force poison = true

  abbrev pub save_entry : Runtime P → DeadJobEntry P → Runtime P
  save_entry r entry = record r {
    dead_letters = (save r.dead_letters entry (now env r)).0;
    ticks = suc r.ticks;
  }

  abbrev pub cancel_in_queue : Runtime P → String → String → Runtime P
  cancel_in_queue r queue job_id = record r { queue = (Settle.cancel r.queue queue job_id).0 }

  abbrev pub discard_found :
      Runtime P
      → Option (DeadJobEntry P)
      → Option String
      → Runtime P × Result RuntimeError (Unit {0})
  discard_found r none reason = (r, raise unknown_entry)
  discard_found r (some entry) reason =
      let r1 = cancel_in_queue r entry.queue entry.job.id in
      (
        save_entry (record r1 { ticks = suc r1.ticks })
            (record entry {
              state = discarded;
              discarded_reason = reason;
              discarded_at = some (now env r1);
            }),
        ok tt,
      )

  unfoldable pub discard_dlq_entry :
      Runtime P → String → Option String → Runtime P × Result RuntimeError (Unit {0})
  unfolding save Settle.cancel
  discard_dlq_entry r entry_id reason = discard_found r (Dict.get r.dead_letters entry_id) reason

  abbrev pub replay_of : DeadJobEntry P → Option ℕ → Submission P
  replay_of entry scheduled_for = record {
    queue = some entry.queue;
    retry_policy = none;
    scheduled_for = scheduled_for;
    correlation_id = entry.job.correlation_id;
    parent_job_id = some entry.job.id;
    visibility_timeout = some entry.job.visibility_timeout;
    replayed_from = some entry.id;
    job_id = none;
    metadata = none;
  }

  abbrev pub mark_replayed :
      DeadJobEntry P
      → JobEnvelope P
      → Runtime P × Result RuntimeError (Unit {0})
      → Runtime P × Result RuntimeError (Unit {0})
  mark_replayed entry job (r, raise err) = (r, raise err)
  mark_replayed entry job (r, ok _) =
      let r1 = if is_inline mode then r else cancel_in_queue r entry.queue entry.job.id in
      (
        save_entry (record r1 { ticks = suc r1.ticks })
            (record entry {
              state = replayed;
              replayed_to_job_id = some job.id;
              replayed_at = some (now env r1);
            }),
        ok tt,
      )

  abbrev pub replay :
      Runtime P
      → DeadJobEntry P
      → Option (HandlerDescriptor P)
      → Option ℕ
      → Runtime P × Result RuntimeError (Unit {0})
  replay r entry none scheduled_for = (r, raise unknown_job_type)
  replay r entry (some descriptor) scheduled_for =
      let job =
        build_job env fuel far mode r entry.job_type descriptor entry.job.payload
          (replay_of entry scheduled_for) in
      let announced = announce_submitted env fuel far mode (record r { ticks = suc r.ticks }) job in
      mark_replayed entry job (
        if is_inline mode
        then run_inline env fuel far mode announced job
        else enqueue env fuel far mode announced job)

  abbrev pub retry_found :
      Runtime P
      → Option (DeadJobEntry P)
      → Bool
      → Option ℕ
      → Runtime P × Result RuntimeError (Unit {0})
  retry_found r none force scheduled_for = (r, raise unknown_entry)
  retry_found r (some entry) force scheduled_for =
      if needs_force entry.cause && not force
      then (r, raise force_required)
      else replay r entry (env.handlers entry.job_type) scheduled_for

  unfoldable pub retry_dlq_entry :
      Runtime P → String → Bool → Option ℕ → Runtime P × Result RuntimeError (Unit {0})
  unfolding build_job set_state emit_lifecycle execute_claim save Submit.submit Settle.cancel
  retry_dlq_entry r entry_id force scheduled_for =
      retry_found r (Dict.get r.dead_letters entry_id) force scheduled_for
