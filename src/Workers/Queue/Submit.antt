-- ===== src/Workers/Queue/Submit.antt =====
-- `submit` of `InMemoryQueue`. Under a `job_id` the code stores a copy of the caller's envelope; without
-- one it writes to that envelope and stores it. Where the envelope is the object that an entry
-- holds already, because it was returned by the queue or submitted before without a `job_id`, the
-- call is `submit_stored`; else it is `submit`.
use skrift.Prelude.{
  String, false, Option, none, some, BEq, if◌then◌else◌, or_else, string_beq, Result, ok, raise,
}
use skrift.Workers.Queue.{
  QueueError, job_id_conflict, QueueEntry, InMemoryQueue, Clock, ready_from, find, store, opened,
}
use skrift.Workers.Job.{JobEnvelope, idempotency_payload, same_payload}

module _ {P : Type 0} ⦃e : BEq P⦄ where
  -- the envelope that `submit` stores, with its `ready_since` set
  unfoldable pub prepare : JobEnvelope P → Option String → Clock → JobEnvelope P
  prepare job job_id clock = record job {
    id = or_else job_id job.id;
    ready_since = ready_from (or_else job.scheduled_for (clock 0)) (clock 1);
  }

  unfoldable pub submit :
      InMemoryQueue P
      → JobEnvelope P
      → Option String
      → Clock
      → InMemoryQueue P × Result QueueError (JobEnvelope P)
  unfolding find store prepare idempotency_payload same_payload opened
  submit q job job_id clock =
      let job' = prepare job job_id clock in
      elim (find q job.queue job'.id) [
        | none ↦ (
          store q job.queue job'.id (record {
            job = job';
            visible_at = or_else job.scheduled_for (clock 0);
            claim_token = none;
            claim_expires_at = none;
            dead_lettered = false;
          }),
          ok job',
        )
        | some existing ↦
            if same_payload (idempotency_payload existing.job) (idempotency_payload job')
            then (opened q job.queue, ok existing.job)
            else (opened q job.queue, raise job_id_conflict)
      ]

module _ {P : Type 0} where
  -- The entry of an envelope to which `submit` writes before it looks it up.
  unfoldable pub touch : Clock → QueueEntry P → QueueEntry P
  touch clock entry = record entry {
    job = record entry.job {
      ready_since = ready_from (or_else entry.job.scheduled_for (clock 0)) (clock 1);
    };
  }

  -- The submission, without a `job_id`, of the very envelope that the entry under `queue` and `id`
  -- holds: it is the same as itself, and is returned.
  unfoldable pub submit_stored :
      InMemoryQueue P → String → String → Clock → InMemoryQueue P × Option (JobEnvelope P)
  unfolding find store touch
  submit_stored q queue id clock = elim (find q queue id) [
    | none ↦ (q, none)
    | some entry ↦ (store q queue id (touch clock entry), some (touch clock entry).job)
  ]
