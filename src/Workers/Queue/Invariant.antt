-- ===== src/Workers/Queue/Invariant.antt =====
-- What holds of every state that a queue can reach.
use skrift.Workers.Queue.Submit.{touch}
use skrift.Workers.Queue.Submit.{submit_stored}
use skrift.Workers.Queue.Selection.{takeable}
use skrift.Prelude.{
  ℕ, String, ◌≡◌, refl, sym, ◌∙◌, inl, inr, Bool, true, Option, none, some, List, [], ◌∷◌, arith,
  BEq, ◌==◌, ℕ_beq, string_beq, Bool-cases, Option-cases, is_some, or_else, Result, if_rule,
}
use skrift.Prelude.Dict
use skrift.Prelude.Dict.{Dict, IsDistinct}
use skrift.Workers.Job.{JobEnvelope, idempotency_payload, same_payload}
use skrift.Workers.Queue.{
  QueueEntry, InMemoryQueue, Clock, entries_of, find, store, discard, opened, empty, QueueError,
}
use skrift.Workers.Queue.Claim.{release_entry, release_expired_claims, lease, claim}
use skrift.Workers.Queue.Settle.{held, ack, nack, cancel, wake, give_back, rouse}
use skrift.Workers.Queue.Stats.{stats, refreshed, find-stats, entries_of-stats}
use skrift.Workers.Queue.Submit.{prepare, submit}
use skrift.Workers.Queue.Laws.{
  find-release, entries_of-store, entries_of-discard, entries_of-release, find-store_cases,
  find-discard-some, find-opened, entries_of-opened,
}
use skrift.Workers.Queue.Selection.{IsKeyed, claim_from-cases}
use skrift.Workers.Queue.Steps.{Op, step, run}

-- An entry stands under its job's queue and id, has an expiry exactly when it has a token, and is
-- never both dead-lettered and claimed.
pub record EntryIsValid {P : Type 0} (queue id : String) (entry : QueueEntry P) : Type 0 where
  pub in_queue : entry.job.queue ≡ queue
  pub named : entry.job.id ≡ id
  pub paired : is_some entry.claim_token ≡ is_some entry.claim_expires_at
  pub buried : entry.dead_lettered ≡ true → entry.claim_token ≡ none

pub record IsValid {P : Type 0} (q : InMemoryQueue P) : Type 0 where
  pub keyed : IsKeyed q
  pub entry :
      (queue id : String) (entry : QueueEntry P)
      → find q queue id ≡ some entry
      → EntryIsValid queue id entry

module _ {P : Type 0} (q : InMemoryQueue P) (v : IsValid q) where
  pub store-IsValid :
      (queue id : String) (entry : QueueEntry P)
      → EntryIsValid queue id entry
      → IsValid (store q queue id entry)
  store-IsValid queue id entry fits = record {
    keyed = λ queue'. rw entries_of-store (
        if_rule IsDistinct (queue == queue')
          (Dict.put-IsDistinct (entries_of q queue) id entry (v.keyed queue)) (v.keyed queue'));
    entry = λ queue' id' entry' found. elim (find-store_cases q queue id entry queue' id' found) [
      | inl (same, same', e) ↦ rw (← same, ← same', ← e) fits
      | inr before ↦ v.entry queue' id' entry' before
    ];
  }

  pub discard-IsValid : (queue id : String) → IsValid (discard q queue id)
  discard-IsValid queue id = record {
    keyed = λ queue'. rw entries_of-discard (
        if_rule IsDistinct (queue == queue')
          (Dict.remove-IsDistinct (entries_of q queue) id (v.keyed queue)) (v.keyed queue'));
    entry = λ queue' id' entry' found.
        v.entry queue' id' entry' (find-discard-some q queue id queue' id' found);
  }

  release_entry-IsValid :
      (now : ℕ) {queue id : String} (entry : QueueEntry P)
      → EntryIsValid queue id entry
      → EntryIsValid queue id (release_entry now entry)
  unfolding release_entry
  release_entry-IsValid now entry fits = record {
    in_queue = ground (arith, fits.in_queue);
    named = ground (arith, fits.named);
    paired = ground (arith, fits.paired);
    buried = ground (arith, fits.buried);
  }

  pub release-IsValid : (now : ℕ) → IsValid (release_expired_claims q now)
  release-IsValid now = record {
    keyed = λ queue'.
        rw entries_of-release
          (Dict.map_values-IsDistinct (release_entry now) (entries_of q queue') (v.keyed queue'));
    entry = λ queue' id' entry' found. elim (Option-cases (find q queue' id')) [
      | inl gone ↦ cc (find-release q queue' id' now, gone)
      | inr (old, there) ↦
          let e : release_entry now old ≡ entry' = ground (arith, find-release q queue' id' now) in
          rw (← e) (release_entry-IsValid now old (v.entry queue' id' old there))
    ];
  }

-- What each method writes into an entry keeps it valid.
module _ {P : Type 0} {queue id : String} (entry : QueueEntry P)
    (fits : EntryIsValid queue id entry) where
  lease-IsValid :
      (token : String) (until now : ℕ)
      → takeable entry now ≡ true
      → EntryIsValid queue id (lease token until entry)
  unfolding lease
  lease-IsValid token until now free = record {
    in_queue = fits.in_queue;
    named = fits.named;
    paired = refl;
    buried = λ dead. ground arith;
  }

  give_back-IsValid :
      (retry_at : Option ℕ) (dead_letter : Bool) (clock : Clock)
      → EntryIsValid queue id (give_back retry_at dead_letter clock entry)
  unfolding give_back
  give_back-IsValid retry_at dead_letter clock = record {
    in_queue = fits.in_queue;
    named = fits.named;
    paired = refl;
    buried = λ dead. refl;
  }

  rouse-IsValid :
      (resume_at : Option ℕ) (clock : Clock) → EntryIsValid queue id (rouse resume_at clock entry)
  unfolding rouse
  rouse-IsValid resume_at clock = record {
    in_queue = fits.in_queue;
    named = fits.named;
    paired = fits.paired;
    buried = fits.buried;
  }

  touch-IsValid : (clock : Clock) → EntryIsValid queue id (touch clock entry)
  unfolding touch
  touch-IsValid clock = record {
    in_queue = fits.in_queue;
    named = fits.named;
    paired = fits.paired;
    buried = fits.buried;
  }

  refreshed-IsValid : (now : ℕ) → EntryIsValid queue id (refreshed now entry)
  unfolding refreshed
  refreshed-IsValid now = record {
    in_queue = ground (arith, fits.in_queue);
    named = ground (arith, fits.named);
    paired = ground (arith, fits.paired);
    buried = ground (arith, fits.buried);
  }

module _ {P : Type 0} (q : InMemoryQueue P) (v : IsValid q) where
  pub claim-IsValid :
      (queues : List String) (token : String) (timeout : ℕ) (clock : Clock)
      → IsValid (claim q queues token timeout clock).0
  unfolding claim
  claim-IsValid queues token timeout clock =
      let r = release_expired_claims q (clock 0) in
      let w = release-IsValid q v (clock 0) in
      elim (claim_from-cases r token timeout clock queues 1 w.keyed) [
        | inl same ↦ rw same w
        | inr t ↦ rw t.left (
            store-IsValid r w t.queue t.id _
              (lease-IsValid t.entry (w.entry t.queue t.id t.entry t.found) token _ _ t.free))
      ]

  held-found :
      (queue id token : String) {entry : QueueEntry P}
      → held q queue id token ≡ some entry
      → find q queue id ≡ some entry
  unfolding held
  held-found queue id token h = ground arith

  ack-IsValid : (queue id token : String) → IsValid (ack q queue id token).0
  unfolding ack
  ack-IsValid queue id token = elim (Option-cases (held q queue id token)) [
    | inl no_claim ↦ rw (no_claim, ack) v
    | inr (entry, claimed) ↦ rw (claimed, ack) (discard-IsValid q v queue id)
  ]

  nack-IsValid :
      (queue id token : String) (retry_at : Option ℕ) (dead_letter : Bool) (clock : Clock)
      → IsValid (nack q queue id token retry_at dead_letter clock).0
  unfolding nack
  nack-IsValid queue id token retry_at dead_letter clock =
      elim (Option-cases (held q queue id token)) [
        | inl no_claim ↦ rw (no_claim, nack) v
        | inr (entry, claimed) ↦
            let fits = v.entry queue id entry (held-found queue id token claimed) in
            rw (claimed, nack)
              (store-IsValid q v queue id _
                (give_back-IsValid entry fits retry_at dead_letter clock))
      ]

  cancel-IsValid : (queue id : String) → IsValid (cancel q queue id).0
  unfolding cancel
  cancel-IsValid queue id = elim (Option-cases (find q queue id)) [
    | inl gone ↦ rw (gone, cancel) v
    | inr (entry, there) ↦
        rw (there, cancel)
          (if_rule (λ (r : InMemoryQueue P × Bool). IsValid r.0) (is_some entry.claim_token) v
            (discard-IsValid q v queue id))
  ]

  wake-IsValid :
      (queue id : String) (resume_at : Option ℕ) (clock : Clock)
      → IsValid (wake q queue id resume_at clock).0
  unfolding wake
  wake-IsValid queue id resume_at clock = elim (Option-cases (find q queue id)) [
    | inl gone ↦ rw (gone, wake) v
    | inr (entry, there) ↦
        let fits = v.entry queue id entry there in
        rw (there, wake)
          (if_rule (λ (r : InMemoryQueue P × Bool). IsValid r.0) entry.dead_lettered v
            (store-IsValid q v queue id _ (rouse-IsValid entry fits resume_at clock)))
  ]

  stats-IsValid : (queue : String) (clock : Clock) → IsValid (stats q queue clock).0
  stats-IsValid queue clock =
      let r = release_expired_claims q (clock 0) in
      let w = release-IsValid q v (clock 0) in
      record {
        keyed = λ queue'. rw entries_of-stats (
            if_rule IsDistinct (queue == queue')
              (Dict.map_values-IsDistinct (refreshed (clock 0)) (entries_of r queue')
                (w.keyed queue'))
              (w.keyed queue'));
        entry = λ queue' id' entry' found. elim (Option-cases (find r queue' id')) [
          | inl gone ↦ absurd (ground (arith, find-stats q queue clock queue' id'))
          | inr (old, there) ↦ elim (Bool-cases (queue == queue')) [
            | inl same ↦
                let e : refreshed (clock 0) old ≡ entry' =
                  ground (arith, find-stats q queue clock queue' id') in
                rw (← e) (refreshed-IsValid old (w.entry queue' id' old there) (clock 0))
            | inr other ↦
                let e : old ≡ entry' = ground (arith, find-stats q queue clock queue' id') in
                rw (← e) (w.entry queue' id' old there)
          ]
        ];
      }

module _ {P : Type 0} ⦃e : BEq P⦄ (q : InMemoryQueue P) (v : IsValid q) where
  opened-IsValid : (queue : String) → IsValid (opened q queue)
  opened-IsValid queue = record {
    keyed = λ queue'. rw entries_of-opened (v.keyed queue');
    entry = λ queue' id' entry' found.
        v.entry queue' id' entry' (sym (find-opened q queue queue' id') ∙ found);
  }

  submit-IsValid :
      (job : JobEnvelope P) (job_id : Option String) (clock : Clock)
      → IsValid (submit q job job_id clock).0
  unfolding submit prepare
  submit-IsValid job job_id clock =
      let id = or_else job_id job.id in
      elim (Option-cases (find q job.queue id)) [
        | inl gone ↦
            rw (gone, submit)
              (store-IsValid q v job.queue id _
                (record { in_queue = refl; named = refl; paired = refl; buried = λ dead. refl }))
        | inr (existing, there) ↦
            rw (there, submit)
              (if_rule (λ (r : InMemoryQueue P × Result QueueError (JobEnvelope P)). IsValid r.0)
                (same_payload (idempotency_payload existing.job)
                  (idempotency_payload (prepare job job_id clock)))
                (opened-IsValid job.queue) (opened-IsValid job.queue))
      ]

  submit_stored-IsValid :
      (queue id : String) (clock : Clock) → IsValid (submit_stored q queue id clock).0
  unfolding submit_stored
  submit_stored-IsValid queue id clock = elim (Option-cases (find q queue id)) [
    | inl gone ↦ rw (gone, submit_stored) v
    | inr (entry, there) ↦
        let fits = v.entry queue id entry there in
        rw (there, submit_stored) (store-IsValid q v queue id _ (touch-IsValid entry fits clock))
  ]

  pub step-IsValid : (op : Op P) → IsValid (step q op)
  unfolding step
  step-IsValid (Op.submit job job_id clock) = submit-IsValid job job_id clock
  step-IsValid (Op.submit_stored queue id clock) = submit_stored-IsValid queue id clock
  step-IsValid (Op.release now) = release-IsValid q v now
  step-IsValid (Op.claim queues token timeout clock) = claim-IsValid q v queues token timeout clock
  step-IsValid (Op.ack queue id token) = ack-IsValid q v queue id token
  step-IsValid (Op.nack queue id token retry_at dead clock) =
      nack-IsValid q v queue id token retry_at dead clock
  step-IsValid (Op.cancel queue id) = cancel-IsValid q v queue id
  step-IsValid (Op.wake queue id resume_at clock) = wake-IsValid q v queue id resume_at clock
  step-IsValid (Op.stats queue clock) = stats-IsValid q v queue clock

module _ {P : Type 0} ⦃e : BEq P⦄ where
  -- Whatever calls a valid queue receives, it stays valid: every entry stands under its own
  -- queue and id and once only, has a claim expiry exactly when it has a claim token, and is
  -- not both dead-lettered and claimed.
  pub run-IsValid : (q : InMemoryQueue P) (ops : List (Op P)) → IsValid q → IsValid (run q ops)
  unfolding run
  run-IsValid q [] v = v
  run-IsValid q (op ∷ ops) v = run-IsValid (step q op) ops (step-IsValid q v op)

pub IsValid-empty : {P : Type 0} → IsValid (empty {P = P})
unfolding find Dict.get
IsValid-empty = record { keyed = λ queue. tt; entry = λ queue id entry found. cc }
