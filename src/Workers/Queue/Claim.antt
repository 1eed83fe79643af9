-- ===== src/Workers/Queue/Claim.antt =====
-- `_release_expired_claims`, `_claimable` and `claim` of `InMemoryQueue`.
use skrift.Prelude.{
  ℕ, suc, ◌+◌, String, Bool, false, not, ◌&&◌, ◌||◌, Option, none, some, List, [], ◌∷◌, leb,
  if◌then◌else◌, is_some, or_else, string_beq,
}
use skrift.Prelude.Dict
use skrift.Prelude.Dict.{Dict}
use skrift.Workers.Queue.{QueueEntry, InMemoryQueue, Clock, entries_of, store}
use skrift.Workers.Job.{ClaimedJob}

module _ {P : Type 0} where
  -- `claim_expires_at is not None and claim_expires_at <= now`
  abbrev pub has_lapsed : QueueEntry P → ℕ → Bool
  has_lapsed entry now = elim entry.claim_expires_at [
    | none ↦ false
    | some expires_at ↦ leb expires_at now
  ]

  -- the body of the loop of `_release_expired_claims_locked`
  unfoldable pub release_entry : ℕ → QueueEntry P → QueueEntry P
  release_entry now entry =
      if is_some entry.claim_token && has_lapsed entry now && not entry.dead_lettered
      then record entry {
        claim_token = none;
        claim_expires_at = none;
        visible_at = now;
        job = record entry.job {
          ready_since = some now;
          reclaim_count = entry.job.reclaim_count + 1;
        };
      }
      else entry

  unfoldable pub release_expired_claims : InMemoryQueue P → ℕ → InMemoryQueue P
  unfolding release_entry
  release_expired_claims q now = record {
    entries = Dict.map_values (Dict.map_values (release_entry now)) q.entries;
  }

  -- `_claimable`: the first entry that a worker may take, with its key
  unfoldable pub claimable : Dict String (QueueEntry P) → ℕ → Option (String × QueueEntry P)
  claimable [] now = none
  claimable ((id, entry) ∷ rest) now =
      let others = claimable rest now in
      if entry.dead_lettered || is_some entry.claim_token
      then others
      else if leb entry.visible_at now
      then some (
        id,
        record entry {
          job = record entry.job {
            ready_since = some (or_else entry.job.ready_since entry.visible_at);
          };
        },
      )
      else others

  -- what `claim` writes into the entry that it takes
  unfoldable pub lease : String → ℕ → QueueEntry P → QueueEntry P
  lease token expires_at entry = record entry {
    claim_token = some token;
    claim_expires_at = some expires_at;
    job = record entry.job { ready_since = none };
  }

  -- the loop of `claim` over the queues
  unfoldable pub claim_from :
      InMemoryQueue P
      → List String
      → String
      → ℕ
      → Clock
      → ℕ
      → InMemoryQueue P × Option (ClaimedJob P)
  unfolding entries_of claimable lease store
  claim_from q [] token timeout clock n = (q, none)
  claim_from q (queue ∷ queues) token timeout clock n =
      elim (claimable (entries_of q queue) (clock n)) [
        | none ↦ claim_from q queues token timeout clock (suc n)
        | some (id, entry) ↦
            let leased = lease token (clock (suc n) + timeout) entry in
            (
              store q queue id leased,
              some (record { job = leased.job; token = token; claimed_at = clock (suc (suc n)) }),
            )
      ]

  unfoldable pub claim :
      InMemoryQueue P → List String → String → ℕ → Clock → InMemoryQueue P × Option (ClaimedJob P)
  unfolding release_expired_claims claim_from
  claim q queues token timeout clock =
      claim_from (release_expired_claims q (clock 0)) queues token timeout clock 1
