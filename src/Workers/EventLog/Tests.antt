-- ===== src/Workers/EventLog/Tests.antt =====
-- A small event log, and the theorems about event logs at it.
use skrift.Workers.EventLog.{find_same_id}
use skrift.Workers.EventLog.{append_unless}
use skrift.Workers.EventLog.{append_stream}
use skrift.Prelude.{
  ℕ, ◌+◌, ◌%◌, ◌≤◌, ◌<◌, String, ◌≡◌, refl, ◌≢◌, ◌⊎◌, Option, none, some, List, [], ◌∷◌, arith,
  ℕ_beq, string_beq, leb, ok, raise, filter,
}
use skrift.Prelude.Dict
use skrift.Workers.EventLog.{
  InMemoryEventLog, event_id_conflict, stream_of, append, read, poll, next_position, new_stream,
}
use skrift.Workers.EventLog.Stream.{event_at}
use skrift.Workers.EventLog.Index.{LogIsValid, new_stream-IsValid}
use skrift.Workers.EventLog.Append.{Appended, append-LogIsValid, append_lem}
use skrift.Workers.EventLog.Reads.{limited, read_lem, poll_lem}

-- Events are numbers, and the last digit is the id.
abbrev event_id : ℕ → Option ℕ
event_id n = some (n % 10)

abbrev log : InMemoryEventLog ℕ ℕ
log = record { max_events_per_stream = 2; streams = [] }

abbrev one : InMemoryEventLog ℕ ℕ
one = (append event_id log "news" 3).0

abbrev two : InMemoryEventLog ℕ ℕ
two = (append event_id one "news" 4).0

abbrev three : InMemoryEventLog ℕ ℕ
three = (append event_id two "news" 5).0

program : Unit {0}
unfolding append read poll append_stream append_unless find_same_id new_stream Dict.get Dict.put
    Dict.remove
program = tt

append_again_test : (append event_id two "news" 3).1 ≡ ok 0
unfolding program
append_again_test = refl

append_conflict_test : (append event_id two "news" 13).1 ≡ raise event_id_conflict
unfolding program
append_conflict_test = refl

-- The first event is gone, and its id with it.
append_evicted_test : (append event_id three "news" 13).1 ≡ ok 3
unfolding program
append_evicted_test = refl

read_test : read three "news" 0 none ≡ (1, 4) ∷ (2, 5) ∷ []
unfolding program
read_test = refl

log-IsValid : LogIsValid event_id log
unfolding program
log-IsValid = record {
  positive = omega arith;
  streams = λ name. new_stream-IsValid event_id 2 (omega arith);
}

two-IsValid : LogIsValid event_id two
two-IsValid =
    append-LogIsValid event_id one "news" 4 (append-LogIsValid event_id log "news" 3 log-IsValid)

append-LogIsValid_example : LogIsValid event_id three
append-LogIsValid_example = append-LogIsValid event_id two "news" 5 two-IsValid

append_lem_example :
    Appended event_id
      (stream_of two "news")
      13
      (stream_of (append event_id two "news" 13).0 "news", (append event_id two "news" 13).1)
    × ((other : String)
        → "news" ≢ other
        → stream_of (append event_id two "news" 13).0 other ≡ stream_of two other)
    × ((p : ℕ)
        → (append event_id two "news" 13).1 ≡ ok p
        → event_at (stream_of (append event_id two "news" 13).0 "news").events p ≡ some 13)
append_lem_example = append_lem event_id two "news" 13 two-IsValid

read_lem_example :
    read two "news" 1 (some 5)
    ≡ limited event_id (some 5) (filter (λ row. leb 1 row.0) (stream_of two "news").events)
read_lem_example = read_lem event_id two "news" 1 (some 5) two-IsValid

poll_lem_example :
    ((next_position two "news" ≤ 1) × (poll two "news" 1 ≡ none))
    ⊎ ((1 < next_position two "news")
        × ((row : ℕ × ℕ) × (rest : List (ℕ × ℕ)) × (filter
                (λ r. leb 1 r.0)
                (stream_of two "news").events
              ≡ row ∷ rest)
            × (1 ≤ row.0)
            × (poll two "news" 1 ≡ some (ok (row, row.0 + 1)))))
poll_lem_example = poll_lem event_id two "news" 1 two-IsValid
