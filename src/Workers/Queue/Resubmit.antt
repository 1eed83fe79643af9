-- ===== src/Workers/Queue/Resubmit.antt =====
-- Submitting a job again under a job id that is given with the call, so that `submit` stores a
-- copy of the caller's envelope.
use skrift.Prelude.{
  ℕ, String, ◌≡◌, refl, sym, ap, ◌∙◌, ◌≢◌, inl, inr, true, false, Option, none, some, BEq, ℕ_beq,
  string_beq, Bool-cases, Option-cases, or_else, Result, ok, raise, ok-injective,
}
use skrift.Workers.Job.{
  JobEnvelope, IdempotencyPayload, idempotency_payload, same_payload, same_payload_iff,
}
use skrift.Workers.Queue.{
  QueueError, job_id_conflict, QueueEntry, InMemoryQueue, Clock, ready_from, find, store, opened,
}
use skrift.Workers.Queue.Settle.{wake, rouse}
use skrift.Workers.Queue.Submit.{prepare, submit}
use skrift.Workers.Queue.Laws.{find-store_self, find-opened}

module _ {P : Type 0} ⦃e : BEq P⦄ (job : JobEnvelope P) (job_id : String) where
  -- The clock of the second call changes nothing that is compared.
  same_payload-prepare :
      (clock clock' : Clock)
      → same_payload
          (idempotency_payload (prepare job (some job_id) clock))
          (idempotency_payload (prepare job (some job_id) clock'))
        ≡ true
  unfolding prepare idempotency_payload
  same_payload-prepare clock clock' = (same_payload_iff _ _).1 refl

  -- A stored job that matches is returned, and no entry changes.
  submit_match :
      (q : InMemoryQueue P) (clock : Clock) {existing : QueueEntry P}
      → find q job.queue job_id ≡ some existing
      → same_payload
          (idempotency_payload existing.job)
          (idempotency_payload (prepare job (some job_id) clock))
        ≡ true
      → submit q job (some job_id) clock ≡ (opened q job.queue, ok existing.job)
  unfolding submit prepare
  submit_match q clock there same = rw (there, submit) (rw same refl)

  submit_mismatch :
      (q : InMemoryQueue P) (clock : Clock) {existing : QueueEntry P}
      → find q job.queue job_id ≡ some existing
      → same_payload
          (idempotency_payload existing.job)
          (idempotency_payload (prepare job (some job_id) clock))
        ≡ false
      → submit q job (some job_id) clock ≡ (opened q job.queue, raise job_id_conflict)
  unfolding submit prepare
  submit_mismatch q clock there same = rw (there, submit) (rw same refl)

  abbrev result :
      InMemoryQueue P × Result QueueError (JobEnvelope P) → Result QueueError (JobEnvelope P)
  result r = r.1

  -- The entry that a successful submission leaves under its key.
  submit_leaves :
      (q : InMemoryQueue P) (clock clock' : Clock) {stored : JobEnvelope P}
      → (submit q job (some job_id) clock).1 ≡ ok stored
      → (entry : QueueEntry P) × (find (submit q job (some job_id) clock).0 job.queue job_id
          ≡ some entry)
        × (entry.job ≡ stored)
        × (same_payload
              (idempotency_payload entry.job)
              (idempotency_payload (prepare job (some job_id) clock'))
            ≡ true)
  submit_leaves q clock clock' {stored} done = elim (Option-cases (find q job.queue job_id)) [
    | inl gone ↦
        let entry : QueueEntry P = record {
          job = prepare job (some job_id) clock;
          visible_at = or_else job.scheduled_for (clock 0);
          claim_token = none;
          claim_expires_at = none;
          dead_lettered = false;
        } in
        let e : submit q job (some job_id) clock ≡ (store q job.queue job_id entry, ok entry.job) =
          unfold submit prepare in rw (gone, submit) refl in
        (
          entry,
          rw e (find-store_self q job.queue job_id entry),
          ok-injective (ap result (sym e) ∙ done),
          same_payload-prepare clock clock',
        )
    | inr (existing, there) ↦
        elim (Bool-cases (
          same_payload (idempotency_payload existing.job)
            (idempotency_payload (prepare job (some job_id) clock)))) [
              | inl same ↦
                  let e = submit_match q clock there same in
                  (
                    existing,
                    rw e (find-opened q job.queue job.queue job_id ∙ there),
                    ok-injective (ap result (sym e) ∙ done),
                    rw ((same_payload_iff _ _).0 same) (same_payload-prepare clock clock'),
                  )
              | inr other ↦ absurd (cc (ap result (submit_mismatch q clock there other)))
            ]
  ]

  -- If a submission under a given job id succeeds, submitting the same job again under that id, at
  -- any time, returns the envelope that is stored and changes no entry.
  pub submit_again :
      (q : InMemoryQueue P) (clock clock' : Clock) {stored : JobEnvelope P}
      → (submit q job (some job_id) clock).1 ≡ ok stored
      → ((submit (submit q job (some job_id) clock).0 job (some job_id) clock').1 ≡ ok stored)
        × ((queue id : String)
            → find (submit (submit q job (some job_id) clock).0 job (some job_id) clock').0 queue id
              ≡ find (submit q job (some job_id) clock).0 queue id)
  submit_again q clock clock' done =
      let after = (submit q job (some job_id) clock).0 in
      let (entry, there, is_stored, same) = submit_leaves q clock clock' done in
      let again = submit_match after clock' there same in
      (rw (again, is_stored) refl, λ queue id. rw again (find-opened after job.queue queue id))

  woken-differs :
      (clock clock' woken : Clock) (resume_at : Option ℕ)
      → job.scheduled_for ≢ some (or_else resume_at (woken 0))
      → same_payload
          (idempotency_payload (record (prepare job (some job_id) clock) {
            scheduled_for = some (or_else resume_at (woken 0));
            ready_since = ready_from (or_else resume_at (woken 0)) (woken 1);
          }))
          (idempotency_payload (prepare job (some job_id) clock'))
        ≡ false
  unfolding prepare idempotency_payload
  woken-differs clock clock' woken resume_at other = elim (Bool-cases _) [
    | inl same ↦ absurd (
        other (
          sym (ap (λ (p : IdempotencyPayload P). p.scheduled_for) ((same_payload_iff _ _).0 same))))
    | inr differ ↦ differ
  ]

  -- Let a job be submitted under a given job id that is free, and be woken at a time that is not
  -- the time it was scheduled for. Submitting the same job again under that id is then refused as
  -- a conflict, though its submitter did not change it.
  pub submit_after_wake :
      (q : InMemoryQueue P) (clock clock' woken : Clock) (resume_at : Option ℕ)
      → find q job.queue job_id ≡ none
      → job.scheduled_for ≢ some (or_else resume_at (woken 0))
      → (submit
          (wake (submit q job (some job_id) clock).0 job.queue job_id resume_at woken).0
          job
          (some job_id)
          clock').1
        ≡ raise job_id_conflict
  submit_after_wake q clock clock' woken resume_at gone other =
      let entry : QueueEntry P = record {
        job = prepare job (some job_id) clock;
        visible_at = or_else job.scheduled_for (clock 0);
        claim_token = none;
        claim_expires_at = none;
        dead_lettered = false;
      } in
      let after = store q job.queue job_id entry in
      let submitted : (submit q job (some job_id) clock).0 ≡ after =
        unfold submit prepare in rw (gone, submit) refl in
      let there = find-store_self q job.queue job_id entry in
      let awake : (wake after job.queue job_id resume_at woken).0
          ≡ store after job.queue job_id (rouse resume_at woken entry) =
        unfold wake in rw (there, wake) refl in
      rw (submitted, awake)
        (ap result (
          submit_mismatch (store after job.queue job_id (rouse resume_at woken entry)) clock'
            (find-store_self after job.queue job_id (rouse resume_at woken entry))
            (unfold rouse in woken-differs clock clock' woken resume_at other)))
