-- ===== src/Workers/Queue/Lease.antt =====
-- A claim is a lease: until it lapses, the job belongs to the worker that holds the token.
use skrift.Workers.Queue.Submit.{touch}
use skrift.Workers.Queue.Submit.{submit_stored}
use skrift.Prelude.{
  refl, ℕ, ◌<◌, String, ◌≡◌, ap, ◌∙◌, inl, inr, Bool, false, ◌&&◌, Option, some, List, arith, ◌==◌,
  ==_iff, ℕ_beq, string_beq, Bool-cases, Option-cases, is_some, if_rule,
}
use skrift.Workers.Queue.{QueueEntry, InMemoryQueue, Clock, find, store, discard, opened}
use skrift.Workers.Queue.Claim.{release_entry, release_expired_claims, claim}
use skrift.Workers.Queue.Settle.{held, ack, nack, cancel, wake, rouse}
use skrift.Workers.Queue.Stats.{stats, refreshed, find-stats}
use skrift.Workers.Queue.Laws.{
  find-release, find-store_self, find-store_ne, find-discard_ne, find-opened,
}
use skrift.Workers.Queue.Selection.{claim_from-cases}
use skrift.Workers.Queue.Steps.{Op}
use skrift.Workers.Queue.Invariant.{IsValid, release-IsValid}

-- The job under `queue` and `id` is leased to `token` until `until`.
pub record IsLeased {P : Type 0} (q : InMemoryQueue P) (queue id token : String) (until : ℕ)
    : Type 0 where
  pub entry : QueueEntry P
  pub found : find q queue id ≡ some entry
  pub holder : entry.claim_token ≡ some token
  pub lapses : entry.claim_expires_at ≡ some until
  pub alive : entry.dead_lettered ≡ false

-- A call that does not settle the job with the holder's token, and that reads the clock before
-- the lease lapses where it releases lapsed claims.
abbrev pub Spares : {P : Type 0} → String → String → String → ℕ → Op P → Type 0
Spares queue id token until (Op.submit _ _ _) = Unit
Spares queue id token until (Op.submit_stored _ _ _) = Unit
Spares queue id token until (Op.release now) = now < until
Spares queue id token until (Op.claim _ _ _ clock) = clock 0 < until
Spares queue id token until (Op.ack queue' id' token') =
    ¬ ((queue' ≡ queue) × (id' ≡ id) × (token' ≡ token))
Spares queue id token until (Op.nack queue' id' token' _ _ _) =
    ¬ ((queue' ≡ queue) × (id' ≡ id) × (token' ≡ token))
Spares queue id token until (Op.cancel _ _) = Unit
Spares queue id token until (Op.wake _ _ _ _) = Unit
Spares queue id token until (Op.stats _ clock) = clock 0 < until

module _ {P : Type 0} {queue id token : String} {until : ℕ} where
  pub released-IsLeased :
      (q : InMemoryQueue P) (now : ℕ)
      → IsLeased q queue id token until
      → now < until
      → IsLeased (release_expired_claims q now) queue id token until
  released-IsLeased q now l early = record {
    entry = l.entry;
    found = find-release q queue id now ∙ rw (l.found) (ap some (stays l.entry l.lapses));
    holder = l.holder;
    lapses = l.lapses;
    alive = l.alive;
  }
    where
      stays :
          (entry : QueueEntry P)
          → entry.claim_expires_at ≡ some until
          → release_entry now entry ≡ entry
      stays entry e = unfold release_entry in ground arith

  -- A write under another key leaves the lease.
  pub store_ne-IsLeased :
      (q : InMemoryQueue P) (queue' id' : String) (entry : QueueEntry P)
      → IsLeased q queue id token until
      → ¬ ((queue' ≡ queue) × (id' ≡ id))
      → IsLeased (store q queue' id' entry) queue id token until
  store_ne-IsLeased q queue' id' entry l other = record {
    entry = l.entry;
    found = find-store_ne q queue' id' entry queue id other ∙ l.found;
    holder = l.holder;
    lapses = l.lapses;
    alive = l.alive;
  }

  pub discard_ne-IsLeased :
      (q : InMemoryQueue P) (queue' id' : String)
      → IsLeased q queue id token until
      → ¬ ((queue' ≡ queue) × (id' ≡ id))
      → IsLeased (discard q queue' id') queue id token until
  discard_ne-IsLeased q queue' id' l other = record {
    entry = l.entry;
    found = find-discard_ne q queue' id' queue id other ∙ l.found;
    holder = l.holder;
    lapses = l.lapses;
    alive = l.alive;
  }

  pub claim-IsLeased :
      (q : InMemoryQueue P) (queues : List String) (token' : String) (timeout : ℕ) (clock : Clock)
      → IsValid q
      → IsLeased q queue id token until
      → clock 0 < until
      → IsLeased (claim q queues token' timeout clock).0 queue id token until
  unfolding claim
  claim-IsLeased q queues token' timeout clock v l early =
      let r = release_expired_claims q (clock 0) in
      let kept = released-IsLeased q (clock 0) l early in
      elim (claim_from-cases r token' timeout clock queues 1
        (release-IsValid q v (clock 0)).keyed) [
          | inl same ↦ rw same kept
          | inr t ↦ rw t.left (
              store_ne-IsLeased r t.queue t.id _ kept
                (λ same. ground (arith, same.0, same.1, kept.found, t.found, t.free, kept.holder)))
        ]

  pub held_ne :
      (q : InMemoryQueue P) (queue' id' token' : String) {entry : QueueEntry P}
      → IsLeased q queue id token until
      → held q queue' id' token' ≡ some entry
      → ¬ ((queue' ≡ queue) × (id' ≡ id) × (token' ≡ token))
      → ¬ ((queue' ≡ queue) × (id' ≡ id))
  unfolding held
  held_ne q queue' id' token' l claimed other same =
      other (same.0, same.1, ground (arith, same.0, same.1, l.found, l.holder, ==_iff token token'))

  pub ack-IsLeased :
      (q : InMemoryQueue P) (queue' id' token' : String)
      → IsLeased q queue id token until
      → ¬ ((queue' ≡ queue) × (id' ≡ id) × (token' ≡ token))
      → IsLeased (ack q queue' id' token').0 queue id token until
  unfolding ack
  ack-IsLeased q queue' id' token' l other = elim (Option-cases (held q queue' id' token')) [
    | inl no_claim ↦ rw (no_claim, ack) l
    | inr (entry, claimed) ↦
        rw (claimed, ack)
          (discard_ne-IsLeased q queue' id' l (held_ne q queue' id' token' l claimed other))
  ]

  pub nack-IsLeased :
      (q : InMemoryQueue P) (queue' id' token' : String) (retry_at : Option ℕ) (dead_letter : Bool)
      (clock : Clock)
      → IsLeased q queue id token until
      → ¬ ((queue' ≡ queue) × (id' ≡ id) × (token' ≡ token))
      → IsLeased (nack q queue' id' token' retry_at dead_letter clock).0 queue id token until
  unfolding nack
  nack-IsLeased q queue' id' token' retry_at dead_letter clock l other =
      elim (Option-cases (held q queue' id' token')) [
        | inl no_claim ↦ rw (no_claim, nack) l
        | inr (entry, claimed) ↦
            rw (claimed, nack)
              (store_ne-IsLeased q queue' id' _ l (held_ne q queue' id' token' l claimed other))
      ]

  pub cancel-IsLeased :
      (q : InMemoryQueue P) (queue' id' : String)
      → IsLeased q queue id token until
      → IsLeased (cancel q queue' id').0 queue id token until
  unfolding cancel
  cancel-IsLeased q queue' id' l = elim (Option-cases (find q queue' id')) [
    | inl gone ↦ rw (gone, cancel) l
    | inr (entry, there) ↦ elim (Bool-cases (is_some entry.claim_token)) [
      | inl busy ↦ rw (there, cancel) (rw busy l)
      | inr idle ↦
          rw (there, cancel)
            (rw idle (
              discard_ne-IsLeased q queue' id' l
                (λ same. ground (arith, same.0, same.1, l.found, l.holder))))
    ]
  ]

  -- A write to an entry that keeps its token, its expiry and its mark keeps every lease.
  rewritten-IsLeased :
      (q : InMemoryQueue P) (queue' id' : String) (entry written : QueueEntry P)
      → IsLeased q queue id token until
      → find q queue' id' ≡ some entry
      → written.claim_token ≡ entry.claim_token
      → written.claim_expires_at ≡ entry.claim_expires_at
      → written.dead_lettered ≡ entry.dead_lettered
      → IsLeased (store q queue' id' written) queue id token until
  rewritten-IsLeased q queue' id' entry written l there same_token same_expiry same_mark =
      elim (Bool-cases (queue' == queue && id' == id)) [
        | inl same ↦
            let same_queue : queue' ≡ queue = ground (arith, ==_iff queue' queue) in
            let same_id : id' ≡ id = ground (arith, ==_iff id' id) in
            let e : entry ≡ l.entry = ground (arith, l.found) in
            rw (same_queue, same_id)
              (record {
                entry = written;
                found = find-store_self q queue id written;
                holder = same_token ∙ rw e l.holder;
                lapses = same_expiry ∙ rw e l.lapses;
                alive = same_mark ∙ rw e l.alive;
              })
        | inr other ↦
            store_ne-IsLeased q queue' id' _ l
              (λ same. ground (arith, same.0, same.1, ==_iff queue' queue, ==_iff id' id))
      ]

  pub wake-IsLeased :
      (q : InMemoryQueue P) (queue' id' : String) (resume_at : Option ℕ) (clock : Clock)
      → IsLeased q queue id token until
      → IsLeased (wake q queue' id' resume_at clock).0 queue id token until
  unfolding wake
  wake-IsLeased q queue' id' resume_at clock l = elim (Option-cases (find q queue' id')) [
    | inl gone ↦ rw (gone, wake) l
    | inr (entry, there) ↦
        rw (there, wake)
          (if_rule (λ (r : InMemoryQueue P × Bool). IsLeased r.0 queue id token until)
            entry.dead_lettered l
            (unfold rouse in
              rewritten-IsLeased q queue' id' entry (rouse resume_at clock entry) l there refl refl
                refl))
  ]

  pub submit_stored-IsLeased :
      (q : InMemoryQueue P) (queue' id' : String) (clock : Clock)
      → IsLeased q queue id token until
      → IsLeased (submit_stored q queue' id' clock).0 queue id token until
  unfolding submit_stored touch
  submit_stored-IsLeased q queue' id' clock l = elim (Option-cases (find q queue' id')) [
    | inl gone ↦ rw (gone, submit_stored) l
    | inr (entry, there) ↦
        rw (there, submit_stored)
          (rewritten-IsLeased q queue' id' entry (touch clock entry) l there refl refl refl)
  ]

  pub stats-IsLeased :
      (q : InMemoryQueue P) (queue' : String) (clock : Clock)
      → IsLeased q queue id token until
      → clock 0 < until
      → IsLeased (stats q queue' clock).0 queue id token until
  stats-IsLeased q queue' clock l early =
      let kept = released-IsLeased q (clock 0) l early in
      elim (Bool-cases (queue' == queue)) [
        | inl same ↦ record {
          entry = refreshed (clock 0) kept.entry;
          found = ground (arith, find-stats q queue' clock queue id, kept.found);
          holder = unfold refreshed in ground (arith, kept.holder);
          lapses = unfold refreshed in ground (arith, kept.holder, kept.lapses);
          alive = unfold refreshed in ground (arith, kept.holder, kept.alive);
        }
        | inr other ↦ record {
          entry = kept.entry;
          found = ground (arith, find-stats q queue' clock queue id, kept.found);
          holder = kept.holder;
          lapses = kept.lapses;
          alive = kept.alive;
        }
      ]

  pub opened-IsLeased :
      (q : InMemoryQueue P) (queue' : String)
      → IsLeased q queue id token until
      → IsLeased (opened q queue') queue id token until
  opened-IsLeased q queue' l = record {
    entry = l.entry;
    found = find-opened q queue' queue id ∙ l.found;
    holder = l.holder;
    lapses = l.lapses;
    alive = l.alive;
  }
