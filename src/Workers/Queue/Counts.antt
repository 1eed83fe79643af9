-- ===== src/Workers/Queue/Counts.antt =====
-- What the counters of `stats` add up to.
use skrift.Prelude.{
  ℕ, ◌+◌, String, ◌≡◌, refl, Bool, not, ◌&&◌, Option, none, some, List, [], ◌∷◌, arith, ℕ_beq,
  string_beq, ltb, if◌then◌else◌, is_some, or_else, length, filter,
}
use skrift.Prelude.Dict
use skrift.Prelude.Dict.{Dict, IsDistinct}
use skrift.Workers.Queue.{QueueEntry, QueueStats, InMemoryQueue, Clock, entries_of}
use skrift.Workers.Queue.Claim.{release_expired_claims}
use skrift.Workers.Queue.Stats.{count_entry, count_entries, stats, visit, none_yet}
use skrift.Workers.Queue.Selection.{takeable}

-- Tests on an entry, for the counters.
abbrev pub is_dead : {P : Type 0} → QueueEntry P → Bool
is_dead entry = entry.dead_lettered

abbrev pub is_claimed : {P : Type 0} → QueueEntry P → Bool
is_claimed entry = not entry.dead_lettered && is_some entry.claim_token

-- An entry waits for its time, as of `now`.
abbrev pub is_delayed : {P : Type 0} → ℕ → QueueEntry P → Bool
is_delayed now entry =
    not entry.dead_lettered && not (is_some entry.claim_token) && ltb now entry.visible_at

abbrev pub count {ℓ} : {A : Type ℓ} → (A → Bool) → List A → ℕ
count p xs = length (filter p xs)

module _ {P : Type 0} where
  count_entry-counts :
      (now : ℕ) (s : QueueStats) (entry : QueueEntry P)
      → ((count_entry now s entry).0.ready ≡ s.ready + (if takeable entry now then 1 else 0))
        × ((count_entry now s entry).0.delayed
            ≡ s.delayed + (if is_delayed now entry then 1 else 0))
        × ((count_entry now s entry).0.claimed ≡ s.claimed + (if is_claimed entry then 1 else 0))
        × ((count_entry now s entry).0.dead_lettered
            ≡ s.dead_lettered + (if is_dead entry then 1 else 0))
  unfolding count_entry
  count_entry-counts now s entry = ground arith

  count_entries-counts :
      (now : ℕ) (s : QueueStats) (d : Dict String (QueueEntry P))
      → ((count_entries now s d).0.ready
          ≡ s.ready + count (λ entry. takeable entry now) (Dict.values d))
        × ((count_entries now s d).0.delayed ≡ s.delayed + count (is_delayed now) (Dict.values d))
        × ((count_entries now s d).0.claimed ≡ s.claimed + count is_claimed (Dict.values d))
        × ((count_entries now s d).0.dead_lettered
            ≡ s.dead_lettered + count is_dead (Dict.values d))
  unfolding count_entries
  count_entries-counts now s [] = (omega arith, omega arith, omega arith, omega arith)
  count_entries-counts now s ((id, entry) ∷ d) = ground (
    arith,
    count_entry-counts now s entry,
    count_entries-counts now (count_entry now s entry).0 d,
  )

  -- Every entry is dead-lettered, claimed, delayed or ready, and one of these only.
  counts_partition :
      (now : ℕ) (xs : List (QueueEntry P))
      → count (λ entry. takeable entry now) xs
          + count (is_delayed now) xs
          + count is_claimed xs
          + count is_dead xs
        ≡ length xs
  counts_partition now [] = omega arith
  counts_partition now (entry ∷ xs) = ground (arith, counts_partition now xs)

  visit-counts :
      (q : InMemoryQueue P) (queue : String) (now : ℕ) (o : Option (Dict String (QueueEntry P)))
      → ((visit q queue now o).1.ready
          ≡ count (λ entry. takeable entry now) (Dict.values (or_else o [])))
        × ((visit q queue now o).1.delayed ≡ count (is_delayed now) (Dict.values (or_else o [])))
        × ((visit q queue now o).1.claimed ≡ count is_claimed (Dict.values (or_else o [])))
        × ((visit q queue now o).1.dead_lettered ≡ count is_dead (Dict.values (or_else o [])))
  unfolding visit
  visit-counts q queue now none = (refl, refl, refl, refl)
  visit-counts q queue now (some found) =
      ground (arith, count_entries-counts now (none_yet queue) found)

-- The entries of a queue after lapsed claims were released: what `stats` counts.
abbrev pub counted : {P : Type 0} → InMemoryQueue P → String → ℕ → List (QueueEntry P)
counted q queue now = Dict.values (entries_of (release_expired_claims q now) queue)

module _ {P : Type 0} (q : InMemoryQueue P) (queue : String) (clock : Clock) where
  -- `stats` counts, of the entries left after lapsed claims were released, those that may be
  -- taken as ready, those that wait for their time as delayed, those with a claim as claimed and
  -- the dead-lettered ones, and the four counters add up to the number of entries.
  pub stats_counts :
      ((stats q queue clock).1.ready
        ≡ count (λ entry. takeable entry (clock 0)) (counted q queue (clock 0)))
      × ((stats q queue clock).1.delayed ≡ count (is_delayed (clock 0)) (counted q queue (clock 0)))
      × ((stats q queue clock).1.claimed ≡ count is_claimed (counted q queue (clock 0)))
      × ((stats q queue clock).1.dead_lettered ≡ count is_dead (counted q queue (clock 0)))
      × ((stats q queue clock).1.ready
            + (stats q queue clock).1.delayed
            + (stats q queue clock).1.claimed
            + (stats q queue clock).1.dead_lettered
          ≡ length (counted q queue (clock 0)))
  unfolding stats entries_of
  stats_counts =
      let r = release_expired_claims q (clock 0) in
      let (ready, delayed, claimed, dead) =
        visit-counts r queue (clock 0) (Dict.get r.entries queue) in
      (
        ready,
        delayed,
        claimed,
        dead,
        omega (
          arith,
          ready,
          delayed,
          claimed,
          dead,
          counts_partition (clock 0) (Dict.values (or_else (Dict.get r.entries queue) [])),
        ),
      )
