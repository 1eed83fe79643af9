-- ===== src/Workers/EventLog.antt =====
-- `_EventStream` and `InMemoryEventLog` of skrift/workers/memory.py.
-- An event is a value of type `Ev` (a `dict` that is never changed after the call); `event_id`
-- stands for `event.get("event_id")`. The lock makes each method one step.
pub mod Stream
pub mod Index
pub mod Append
pub mod Reads
mod Tests
use skrift.Prelude.{◌>>=◌}
use skrift.Prelude.{
  ℕ, zero, suc, ◌+◌, ◌-◌, String, Bool, false, Option, none, some, List, [], ◌∷◌, ◌++◌, BEq, ◌==◌,
  ℕ_beq, string_beq, leb, eqb, if◌then◌else◌, or_else, Result, ok, raise, length, get_elem?, take,
  drop, filter,
}
use skrift.Prelude.Dict
use skrift.Prelude.Dict.{Dict}

pub data LogError : Type 0 where
  event_id_conflict index_error : LogError

-- `_events` is a deque with `maxlen=max_events`, oldest first.
pub record EventStream (Ev K : Type 0) : Type 0 where
  pub max_events : ℕ
  pub events : List (ℕ × Ev)
  pub positions_by_event_id : Dict K ℕ
  pub next_position : ℕ

pub record InMemoryEventLog (Ev K : Type 0) : Type 0 where
  pub max_events_per_stream : ℕ
  pub streams : Dict String (EventStream Ev K)

module _ {A : Type 0} where
  -- `deque.append` with a `maxlen`
  unfoldable pub push : ℕ → List A → A → List A
  push maxlen xs x =
      if leb maxlen (length xs)
      then drop (suc (length xs) - maxlen) (xs ++ x ∷ [])
      else xs ++ x ∷ []

  abbrev pub or_raise : Option A → Result LogError A
  or_raise none = raise index_error
  or_raise (some a) = ok a

  -- `xs[i - j]`: an index below zero counts from the end, and one out of range raises
  unfoldable pub index : List A → ℕ → ℕ → Result LogError A
  index xs i j =
      if leb j i
      then or_raise (get_elem? xs (i - j))
      else if leb (j - i) (length xs)
      then or_raise (get_elem? xs (length xs - (j - i)))
      else raise index_error

  -- `islice(xs, start, end)`, with `end = start + limit`
  abbrev pub islice : List A → ℕ → Option ℕ → List A
  islice xs start none = drop start xs
  islice xs start (some limit) = take limit (drop start xs)

-- The position of the oldest event that is kept.
abbrev pub first_position : {Ev : Type 0} → List (ℕ × Ev) → ℕ → ℕ
first_position [] next_position = next_position
first_position (first ∷ _) next_position = first.0

module _ {Ev K : Type 0} where
  unfoldable pub new_stream : ℕ → EventStream Ev K
  new_stream max_events = record {
    max_events = max_events;
    events = [];
    positions_by_event_id = [];
    next_position = 0;
  }

  abbrev pub start_position : EventStream Ev K → ℕ
  start_position s = first_position s.events s.next_position

  unfoldable pub at : EventStream Ev K → ℕ → Result LogError Ev
  unfolding index
  at s position = do event ← index s.events position (start_position s); ok event.1

  unfoldable pub is_full : EventStream Ev K → Bool
  is_full s = elim s.events [ [] ↦ false | _ ∷ _ ↦ eqb (length s.events) s.max_events ]

  unfoldable pub read_stream : EventStream Ev K → ℕ → Option ℕ → List (ℕ × Ev)
  read_stream s from_position limit = islice s.events (from_position - start_position s) limit

  unfoldable pub read_tail_stream : EventStream Ev K → ℕ → List (ℕ × Ev)
  read_tail_stream s limit = drop (length s.events - limit) s.events

  -- the event that an `append` to a full stream drops
  abbrev pub evicted : EventStream Ev K → Option Ev
  evicted s = if is_full s then elim s.events [ [] ↦ none | first ∷ _ ↦ some first.1 ] else none

  -- `self._streams[stream]`
  abbrev pub stream_of : InMemoryEventLog Ev K → String → EventStream Ev K
  stream_of log stream =
      or_else (Dict.get log.streams stream) (new_stream log.max_events_per_stream)

  abbrev pub with_stream : InMemoryEventLog Ev K → String → EventStream Ev K → InMemoryEventLog Ev K
  with_stream log stream s = record log { streams = Dict.put log.streams stream s }

module _ {K : Type 0} ⦃eq_id : BEq K⦄ where
  abbrev pub note_event_id : Option K → ℕ → Dict K ℕ → Dict K ℕ
  note_event_id none position d = d
  note_event_id (some id) position d = Dict.put d id position

module _ {Ev K : Type 0} ⦃eq_id : BEq K⦄ (event_id : Ev → Option K) where
  unfoldable pub find_by_event_id : EventStream Ev K → K → Result LogError (Option (ℕ × Ev))
  unfolding at
  find_by_event_id s id = elim (Dict.get s.positions_by_event_id id) [
    | none ↦ ok none
    | some position ↦ do event ← at s position; ok (some (position, event))
  ]

  unfoldable pub forget_event_id : Ev → Dict K ℕ → Dict K ℕ
  forget_event_id event d = elim (event_id event) [ none ↦ d | some id ↦ Dict.remove d id ]

  unfoldable pub append_stream : EventStream Ev K → Ev → EventStream Ev K × ℕ
  unfolding push is_full forget_event_id
  append_stream s event =
      let position = s.next_position in
      let kept : Dict K ℕ = elim (evicted s) [
        | none ↦ s.positions_by_event_id
        | some old ↦ forget_event_id old s.positions_by_event_id
      ] in
      (
        record s {
          events = push s.max_events s.events (position, event);
          positions_by_event_id = note_event_id (event_id event) position kept;
          next_position = suc position;
        },
        position,
      )

  -- `find_by_event_id`, for an event that has an id
  unfoldable pub find_same_id : EventStream Ev K → Ev → Result LogError (Option (ℕ × Ev))
  unfolding find_by_event_id
  find_same_id s event = elim (event_id event) [ none ↦ ok none | some id ↦ find_by_event_id s id ]

  module _ ⦃eq_event : BEq Ev⦄ where
    -- An `event_id` that is still indexed decides: the same event again has its old position, and
    -- another event is refused. Otherwise the event is appended.
    unfoldable pub append_unless :
        EventStream Ev K
        → Ev
        → Result LogError (Option (ℕ × Ev))
        → EventStream Ev K × Result LogError ℕ
    unfolding append_stream
    append_unless s event (raise err) = (s, raise err)
    append_unless s event (ok none) =
        let (s', position) = append_stream s event in (s', ok position)
    append_unless s event (ok (some (position, stored))) =
        if stored == event then (s, ok position) else (s, raise event_id_conflict)

    unfoldable pub append :
        InMemoryEventLog Ev K → String → Ev → InMemoryEventLog Ev K × Result LogError ℕ
    unfolding append_unless find_same_id new_stream
    append log stream event =
        let s = stream_of log stream in
        let (s', outcome) = append_unless s event (find_same_id s event) in
        (with_stream log stream s', outcome)

module _ {Ev K : Type 0} where
  unfoldable pub read : InMemoryEventLog Ev K → String → ℕ → Option ℕ → List (ℕ × Ev)
  unfolding read_stream
  read log stream from_position limit = elim (Dict.get log.streams stream) [
    | none ↦ []
    | some s ↦ read_stream s from_position limit
  ]

  unfoldable pub read_tail : InMemoryEventLog Ev K → String → ℕ → List (ℕ × Ev)
  unfolding read_tail_stream
  read_tail log stream zero = []
  read_tail log stream (suc limit) = elim (Dict.get log.streams stream) [
    | none ↦ []
    | some s ↦ read_tail_stream s (suc limit)
  ]

  -- `matches` is `all(event.get(key) == value for key, value in filters.items())`
  unfoldable pub read_filtered :
      (Ev → Bool) → InMemoryEventLog Ev K → String → ℕ → Option ℕ → List (ℕ × Ev)
  unfolding read
  read_filtered matches log stream from_position limit =
      let found = filter (λ row. matches row.1) (read log stream from_position none) in
      elim limit [ none ↦ found | some n ↦ take n found ]

  abbrev pub next_position : InMemoryEventLog Ev K → String → ℕ
  next_position log stream = elim (Dict.get log.streams stream) [
    | none ↦ 0
    | some s ↦ s.next_position
  ]

  -- One round of `subscribe` from `cursor`: it waits (`none`), or yields a row and moves on.
  unfoldable pub poll : InMemoryEventLog Ev K → String → ℕ → Option (Result LogError ((ℕ × Ev) × ℕ))
  unfolding read
  poll log stream cursor =
      if leb (next_position log stream) cursor
      then none
      else elim (read log stream cursor (some 1)) [
        | [] ↦ some (raise index_error)
        | row ∷ _ ↦ some (ok (row, row.0 + 1))
      ]

  unfoldable pub delete : InMemoryEventLog Ev K → String → InMemoryEventLog Ev K
  delete log stream = record log { streams = Dict.remove log.streams stream }
