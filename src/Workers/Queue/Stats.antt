-- ===== src/Workers/Queue/Stats.antt =====
-- `stats` of `InMemoryQueue`.
use skrift.Prelude.{◌==◌}
use skrift.Prelude.{arith}
use skrift.Prelude.{◌≡◌, refl, ==_iff}
use skrift.Prelude.{
  ℕ, ◌+◌, ◌-◌, max, String, Option, none, some, [], ◌∷◌, ltb, if◌then◌else◌, is_some, or_else,
  string_beq,
}
use skrift.Prelude.Dict
use mathlib.Core.Option
use skrift.Prelude.Dict.{Dict}
use skrift.Workers.Queue.{QueueEntry, QueueStats, InMemoryQueue, Clock, entries_of, find}
use skrift.Workers.Queue.Claim.{release_expired_claims}

abbrev pub none_yet : String → QueueStats
none_yet queue = record {
  queue = queue;
  ready = 0;
  delayed = 0;
  claimed = 0;
  dead_lettered = 0;
  oldest_ready_age = 0;
}

module _ {P : Type 0} where
  -- one round of the loop of `stats`: the counters, and the entry with its `ready_since` set
  unfoldable pub count_entry : ℕ → QueueStats → QueueEntry P → QueueStats × QueueEntry P
  count_entry now stats entry =
      if entry.dead_lettered
      then (record stats { dead_lettered = stats.dead_lettered + 1 }, entry)
      else if is_some entry.claim_token
      then (record stats { claimed = stats.claimed + 1 }, entry)
      else if ltb now entry.visible_at
      then (
        record stats { delayed = stats.delayed + 1 },
        record entry { job = record entry.job { ready_since = none } },
      )
      else let since = or_else entry.job.ready_since entry.visible_at in
        (
          record stats {
            ready = stats.ready + 1;
            oldest_ready_age = max stats.oldest_ready_age (now - since);
          },
          record entry { job = record entry.job { ready_since = some since } },
        )

  unfoldable pub count_entries :
      ℕ → QueueStats → Dict String (QueueEntry P) → QueueStats × Dict String (QueueEntry P)
  unfolding count_entry
  count_entries now stats [] = (stats, [])
  count_entries now stats ((id, entry) ∷ rest) =
      let (stats', entry') = count_entry now stats entry in
      let (total, rest') = count_entries now stats' rest in (total, (id, entry') ∷ rest')

  -- `self._entries.get(queue, {})` is iterated in place, so a queue that is not there stays away
  unfoldable pub visit :
      InMemoryQueue P
      → String
      → ℕ
      → Option (Dict String (QueueEntry P))
      → InMemoryQueue P × QueueStats
  unfolding count_entries
  visit q queue now none = (q, none_yet queue)
  visit q queue now (some found) =
      let (total, found') = count_entries now (none_yet queue) found in
      (record { entries = Dict.put q.entries queue found' }, total)

  unfoldable pub stats : InMemoryQueue P → String → Clock → InMemoryQueue P × QueueStats
  unfolding release_expired_claims visit
  stats q queue clock =
      let released = release_expired_claims q (clock 0) in
      visit released queue (clock 0) (Dict.get released.entries queue)

  -- What one round leaves of the entry does not depend on the counters.
  unfoldable pub refreshed : ℕ → QueueEntry P → QueueEntry P
  unfolding count_entry
  refreshed now entry = (count_entry now (none_yet "") entry).1

  count_entry-refreshed :
      (now : ℕ) (total : QueueStats) (entry : QueueEntry P)
      → (count_entry now total entry).1 ≡ refreshed now entry
  unfolding count_entry refreshed
  count_entry-refreshed now total entry = ground arith

  pub count_entries-refreshed :
      (now : ℕ) (total : QueueStats) (d : Dict String (QueueEntry P))
      → (count_entries now total d).1 ≡ Dict.map_values (refreshed now) d
  unfolding count_entries Dict.map_values
  count_entries-refreshed now total [] = refl
  count_entries-refreshed now total ((id, entry) ∷ d) = rw (
    count_entry-refreshed now total entry,
    count_entries-refreshed now (count_entry now total entry).0 d,
  )

module _ {P : Type 0} (q : InMemoryQueue P) (queue : String) (now : ℕ) where
  entries_of-visit :
      (o : Option (Dict String (QueueEntry P))) (queue' : String)
      → Dict.get q.entries queue ≡ o
      → entries_of (visit q queue now o).0 queue' ≡ (
          if queue == queue'
          then Dict.map_values (refreshed now) (entries_of q queue')
          else entries_of q queue')
  unfolding visit entries_of Dict.map_values
  entries_of-visit none queue' e = ground (arith, ==_iff queue queue')
  entries_of-visit (some found) queue' e = ground (
    arith,
    ==_iff queue queue',
    Dict.get-put q.entries queue (count_entries now (none_yet queue) found).1 queue',
    count_entries-refreshed now (none_yet queue) found,
  )

-- `stats` releases what has lapsed, and sets `ready_since` of the entries that it counts.
module _ {P : Type 0} (q : InMemoryQueue P) (queue : String) (clock : Clock) where
  pub entries_of-stats :
      (queue' : String)
      → entries_of (stats q queue clock).0 queue' ≡ (
          if queue == queue'
          then Dict.map_values
              (refreshed (clock 0))
              (entries_of (release_expired_claims q (clock 0)) queue')
          else entries_of (release_expired_claims q (clock 0)) queue')
  unfolding stats
  entries_of-stats queue' =
      entries_of-visit (release_expired_claims q (clock 0)) queue (clock 0) _ queue' refl

  pub find-stats :
      (queue' id : String)
      → find (stats q queue clock).0 queue' id ≡ (
          if queue == queue'
          then Option.map
              (refreshed (clock 0))
              (find (release_expired_claims q (clock 0)) queue' id)
          else find (release_expired_claims q (clock 0)) queue' id)
  unfolding find
  find-stats queue' id = ground (
    arith,
    entries_of-stats queue',
    Dict.get-map_values (refreshed (clock 0))
        (entries_of (release_expired_claims q (clock 0)) queue') id,
  )
