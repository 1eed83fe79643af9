-- ===== src/Workers/Queue.antt =====
-- `InMemoryQueue` of skrift/workers/memory.py: its state, and access to an entry.
-- Each method returns the new state beside its result. `clock n` is what the n-th call of `_now()`
-- in the method returns, and `token` what `uuid4().hex` returns. The lock makes each method one
-- step; waiting on the condition is not modelled.
pub mod Claim
pub mod Settle
pub mod Submit
pub mod Stats
pub mod Laws
pub mod Steps
pub mod Selection
pub mod Invariant
pub mod Lease
pub mod Exclusive
pub mod Counts
pub mod Resubmit
mod Tests
use skrift.Prelude.{
  ℕ, String, Bool, Option, none, some, [], leb, if◌then◌else◌, or_else, string_beq,
}
use skrift.Prelude.Dict
use skrift.Prelude.Dict.{Dict}
use skrift.Workers.Job.{JobEnvelope}

pub data QueueError : Type 0 where
  job_id_conflict invalid_claim_token : QueueError

pub record QueueEntry (P : Type 0) : Type 0 where
  pub job : JobEnvelope P
  pub visible_at : ℕ
  pub claim_token : Option String
  pub claim_expires_at : Option ℕ
  pub dead_lettered : Bool

pub record QueueStats : Type 0 where
  pub queue : String
  pub ready : ℕ
  pub delayed : ℕ
  pub claimed : ℕ
  pub dead_lettered : ℕ
  pub oldest_ready_age : ℕ

-- `self._entries`: queue name, then job id.
pub record InMemoryQueue (P : Type 0) : Type 0 where
  pub entries : Dict String (Dict String (QueueEntry P))

abbrev pub Clock : Type 0
Clock = ℕ → ℕ

-- `ready_since` of a job that is visible from `visible_at` on, as of `now`
abbrev pub ready_from : ℕ → ℕ → Option ℕ
ready_from visible_at now = if leb visible_at now then some visible_at else none

module _ {P : Type 0} where
  abbrev pub empty : InMemoryQueue P
  empty = record { entries = [] }

  -- `self._entries.get(queue, {})`
  unfoldable pub entries_of : InMemoryQueue P → String → Dict String (QueueEntry P)
  entries_of q queue = or_else (Dict.get q.entries queue) []

  -- `self._entries.get(queue, {}).get(job_id)`
  unfoldable pub find : InMemoryQueue P → String → String → Option (QueueEntry P)
  unfolding entries_of
  find q queue id = Dict.get (entries_of q queue) id

  -- `self._entries[queue][job_id] = entry`, and an update of an entry in place
  unfoldable pub store : InMemoryQueue P → String → String → QueueEntry P → InMemoryQueue P
  unfolding entries_of
  store q queue id entry = record {
    entries = Dict.put q.entries queue (Dict.put (entries_of q queue) id entry);
  }

  -- `del self._entries[queue][job_id]`
  unfoldable pub discard : InMemoryQueue P → String → String → InMemoryQueue P
  unfolding entries_of
  discard q queue id = record {
    entries = Dict.put q.entries queue (Dict.remove (entries_of q queue) id);
  }

  -- the `defaultdict` makes the inner dictionary of a queue that is read
  unfoldable pub opened : InMemoryQueue P → String → InMemoryQueue P
  unfolding entries_of
  opened q queue = record { entries = Dict.put q.entries queue (entries_of q queue) }
