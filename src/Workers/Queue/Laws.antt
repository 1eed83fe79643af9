-- ===== src/Workers/Queue/Laws.antt =====
-- How each change of the state reads back through `find`. With these laws the proofs about the
-- methods keep the dictionaries shut.
use skrift.Prelude.{◌⊎◌}
use skrift.Prelude.{ℕ, String, none, some, [], if◌then◌else◌, or_else, string_beq}
use skrift.Prelude.{◌≡◌, refl, arith, ==_iff, ◌==◌, Option-cases, inl, inr}
use skrift.Prelude.Dict
use skrift.Prelude.Dict.{Dict}
use mathlib.Core.Option
use skrift.Workers.Queue.{QueueEntry, InMemoryQueue, entries_of, find, store, discard, opened}
use skrift.Workers.Queue.Claim.{release_entry, release_expired_claims}

module _ {P : Type 0} (q : InMemoryQueue P) (queue id : String) where
  -- The entry under another key is as it was.
  pub find-store :
      (entry : QueueEntry P) (queue' id' : String)
      → find (store q queue id entry) queue' id' ≡ (
          if queue == queue'
          then (if id == id' then some entry else find q queue' id')
          else find q queue' id')
  unfolding find store
  find-store entry queue' id' =
      simp Dict.get-put
        (ground (arith, Dict.get-put (entries_of q queue) id entry id', ==_iff queue queue'))

  pub find-discard :
      (queue' id' : String)
      → find (discard q queue id) queue' id' ≡ (
          if queue == queue'
          then (if id == id' then none else find q queue' id')
          else find q queue' id')
  unfolding find discard
  find-discard queue' id' =
      simp Dict.get-put
        (ground (arith, Dict.get-remove (entries_of q queue) id id', ==_iff queue queue'))

  pub find-release :
      (now : ℕ)
      → find (release_expired_claims q now) queue id
        ≡ Option.map (release_entry now) (find q queue id)
  unfolding find release_expired_claims Dict.get
  find-release now = elim (Option-cases (Dict.get q.entries queue)) [
    | inl gone ↦ rw (Dict.get-map_values, gone) refl
    | inr (found, there) ↦
        rw (Dict.get-map_values, there) (Dict.get-map_values (release_entry now) found id)
  ]

  pub entries_of-store :
      (entry : QueueEntry P) (queue' : String)
      → entries_of (store q queue id entry) queue'
        ≡ (if queue == queue' then Dict.put (entries_of q queue) id entry else entries_of q queue')
  unfolding entries_of store
  entries_of-store entry queue' = simp Dict.get-put (ground arith)

  pub entries_of-discard :
      (queue' : String)
      → entries_of (discard q queue id) queue'
        ≡ (if queue == queue' then Dict.remove (entries_of q queue) id else entries_of q queue')
  unfolding entries_of discard
  entries_of-discard queue' = simp Dict.get-put (ground arith)

module _ {P : Type 0} (q : InMemoryQueue P) (queue : String) where
  pub entries_of-release :
      (now : ℕ)
      → entries_of (release_expired_claims q now) queue
        ≡ Dict.map_values (release_entry now) (entries_of q queue)
  unfolding entries_of release_expired_claims Dict.map_values
  entries_of-release now = simp Dict.get-map_values (ground arith)

module _ {P : Type 0} (q : InMemoryQueue P) (queue id : String) where
  -- What is found after a write is what was written, or was there before under another key.
  pub find-store_cases :
      (entry : QueueEntry P) (queue' id' : String) {entry' : QueueEntry P}
      → find (store q queue id entry) queue' id' ≡ some entry'
      → ((queue ≡ queue') × (id ≡ id') × (entry ≡ entry')) ⊎ (find q queue' id' ≡ some entry')
  find-store_cases entry queue' id' found =
      ground (arith, find-store q queue id entry queue' id', ==_iff queue queue', ==_iff id id')

  pub find-store_self : (entry : QueueEntry P) → find (store q queue id entry) queue id ≡ some entry
  find-store_self entry =
      ground (arith, find-store q queue id entry queue id, ==_iff queue queue, ==_iff id id)

  pub find-store_ne :
      (entry : QueueEntry P) (queue' id' : String)
      → ¬ ((queue ≡ queue') × (id ≡ id'))
      → find (store q queue id entry) queue' id' ≡ find q queue' id'
  find-store_ne entry queue' id' other =
      ground
        (arith, find-store q queue id entry queue' id', ==_iff queue queue', ==_iff id id', other)

  pub find-discard-some :
      (queue' id' : String) {entry' : QueueEntry P}
      → find (discard q queue id) queue' id' ≡ some entry'
      → find q queue' id' ≡ some entry'
  find-discard-some queue' id' found =
      ground (arith, find-discard q queue id queue' id', ==_iff queue queue', ==_iff id id')

  pub find-discard_ne :
      (queue' id' : String)
      → ¬ ((queue ≡ queue') × (id ≡ id'))
      → find (discard q queue id) queue' id' ≡ find q queue' id'
  find-discard_ne queue' id' other =
      ground (arith, find-discard q queue id queue' id', ==_iff queue queue', ==_iff id id', other)

  pub find-discard_self : find (discard q queue id) queue id ≡ none
  find-discard_self =
      ground (arith, find-discard q queue id queue id, ==_iff queue queue, ==_iff id id)

module _ {P : Type 0} (q : InMemoryQueue P) (queue : String) where
  -- A queue that is only opened shows nothing new.
  pub entries_of-opened :
      (queue' : String) → entries_of (opened q queue) queue' ≡ entries_of q queue'
  unfolding entries_of opened
  entries_of-opened queue' = ground (
    arith,
    ==_iff queue queue',
    Dict.get-put q.entries queue (or_else (Dict.get q.entries queue) []) queue',
  )

  pub find-opened : (queue' id : String) → find (opened q queue) queue' id ≡ find q queue' id
  unfolding find
  find-opened queue' id = rw entries_of-opened

pub ruleset queue_laws = (find-store, find-discard, find-release)
