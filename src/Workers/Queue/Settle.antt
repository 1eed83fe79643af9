-- ===== src/Workers/Queue/Settle.antt =====
-- `ack`, `nack`, `cancel` and `wake` of `InMemoryQueue`.
use skrift.Prelude.{
  ℕ, String, Bool, true, false, Option, none, some, if◌then◌else◌, is_some, or_else, option_eq,
  string_beq, Result, ok, raise,
}
use skrift.Workers.Queue.{
  QueueError, invalid_claim_token, QueueEntry, InMemoryQueue, Clock, ready_from, find, store,
  discard,
}

module _ {P : Type 0} where
  -- `entry is None or entry.claim_token != token`, or the entry
  unfoldable pub held : InMemoryQueue P → String → String → String → Option (QueueEntry P)
  unfolding find
  held q queue id token = elim (find q queue id) [
    | none ↦ none
    | some entry ↦ if option_eq entry.claim_token (some token) then some entry else none
  ]

  unfoldable pub ack :
      InMemoryQueue P → String → String → String → InMemoryQueue P × Result QueueError (Unit {0})
  unfolding held discard
  ack q queue id token = elim (held q queue id token) [
    | none ↦ (q, raise invalid_claim_token)
    | some entry ↦ (discard q queue id, ok tt)
  ]

  -- what `nack` writes into the entry
  unfoldable pub give_back : Option ℕ → Bool → Clock → QueueEntry P → QueueEntry P
  give_back retry_at dead_letter clock entry =
      let visible_at = or_else retry_at (clock 0) in
      record entry {
        claim_token = none;
        claim_expires_at = none;
        dead_lettered = dead_letter;
        visible_at = visible_at;
        job = record entry.job {
          ready_since = if dead_letter then none else ready_from visible_at (clock 1);
        };
      }

  unfoldable pub nack :
      InMemoryQueue P
      → String
      → String
      → String
      → Option ℕ
      → Bool
      → Clock
      → InMemoryQueue P × Result QueueError (Unit {0})
  unfolding held store give_back
  nack q queue id token retry_at dead_letter clock = elim (held q queue id token) [
    | none ↦ (q, raise invalid_claim_token)
    | some entry ↦ (store q queue id (give_back retry_at dead_letter clock entry), ok tt)
  ]

  unfoldable pub cancel : InMemoryQueue P → String → String → InMemoryQueue P × Bool
  unfolding find discard
  cancel q queue id = elim (find q queue id) [
    | none ↦ (q, false)
    | some entry ↦ if is_some entry.claim_token then (q, false) else (discard q queue id, true)
  ]

  -- what `wake` writes into the entry, its envelope included, which is the caller's own if it was
  -- submitted without a `job_id`
  unfoldable pub rouse : Option ℕ → Clock → QueueEntry P → QueueEntry P
  rouse resume_at clock entry =
      let visible_at = or_else resume_at (clock 0) in
      record entry {
        visible_at = visible_at;
        job = record entry.job {
          scheduled_for = some visible_at;
          ready_since = ready_from visible_at (clock 1);
        };
      }

  unfoldable pub wake :
      InMemoryQueue P → String → String → Option ℕ → Clock → InMemoryQueue P × Bool
  unfolding find store rouse
  wake q queue id resume_at clock = elim (find q queue id) [
    | none ↦ (q, false)
    | some entry ↦
        if entry.dead_lettered
        then (q, false)
        else (store q queue id (rouse resume_at clock entry), true)
  ]
