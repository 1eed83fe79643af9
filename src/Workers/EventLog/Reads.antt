-- ===== src/Workers/EventLog/Reads.antt =====
-- Reads of `InMemoryEventLog`, and the rounds of a subscriber.
use skrift.Prelude.{
  ℕ, zero, suc, ◌+◌, ◌≤◌, ◌<◌, String, ◌≡◌, refl, ap, ◌⊎◌, inl, inr, true, Option, none, some, List,
  [], ◌∷◌, arith, BEq, ℕ_beq, string_beq, leb, leb→le, leb→lt, Bool-cases, Option-cases, ok, length,
  take, filter,
}
use mathlib.Core.Path.{subst}
use skrift.Prelude.Dict
use skrift.Prelude.Dict.{Dict}
use skrift.Workers.EventLog.{
  InMemoryEventLog, stream_of, next_position, poll, read, read_stream, EventStream, new_stream,
}
use skrift.Workers.EventLog.Stream.{Numbered, drop-filter}
use skrift.Workers.EventLog.Index.{LogIsValid, StreamIsValid}

module _ {Ev K : Type 0} ⦃eq_id : BEq K⦄ (event_id : Ev → Option K) where
  -- The first rows, as many as a limit allows.
  abbrev pub limited : Option ℕ → List (ℕ × Ev) → List (ℕ × Ev)
  limited none rows = rows
  limited (some n) rows = take n rows

  read_stream-eq :
      (s : EventStream Ev K) (from_position : ℕ) (limit : Option ℕ)
      → StreamIsValid event_id s
      → read_stream s from_position limit
        ≡ limited limit (filter (λ row. leb from_position row.0) s.events)
  unfolding read_stream
  read_stream-eq s from_position none v =
      drop-filter _ s.events s.next_position from_position v.rows.numbered
  read_stream-eq s from_position (some n) v =
      ap (take n) (drop-filter _ s.events s.next_position from_position v.rows.numbered)

  -- In a valid log `read` returns, of the events of the stream that are kept, those from the
  -- given position on, oldest first, up to the limit.
  pub read_lem :
      (log : InMemoryEventLog Ev K) (stream : String) (from_position : ℕ) (limit : Option ℕ)
      → LogIsValid event_id log
      → read log stream from_position limit
        ≡ limited limit (filter (λ row. leb from_position row.0) (stream_of log stream).events)
  unfolding read new_stream
  read_lem log stream from_position limit v = elim (Option-cases (Dict.get log.streams stream)) [
    | inl gone ↦ rw (gone, read) (none_kept limit)
    | inr (s, there) ↦
        rw (there, read)
          (read_stream-eq s from_position limit
            (subst (StreamIsValid event_id) (rw there refl) (v.streams stream)))
  ]
    where
      none_kept : (l : Option ℕ) → [] ≡ limited l []
      none_kept none = refl
      none_kept (some zero) = refl
      none_kept (some (suc n)) = refl

  filter_first :
      (n : ℕ) (rows : List (ℕ × Ev)) (m cursor : ℕ)
      → Numbered n rows m
      → 0 < length rows
      → cursor < m
      → (row : ℕ × Ev) × (rest : List (ℕ × Ev)) × (filter (λ r. leb cursor r.0) rows ≡ row ∷ rest)
        × (cursor ≤ row.0)
  filter_first n [] m cursor h some_row early = absurd (omega arith)
  filter_first n (row ∷ []) m cursor h some_row early =
      let here : leb cursor row.0 ≡ true = ground (arith, h.0, h.1) in
      (row, [], rw here refl, leb→le cursor row.0 here)
  filter_first n (row ∷ next ∷ rows) m cursor h some_row early =
      elim (Bool-cases (leb cursor row.0)) [
        | inl here ↦ (
          row,
          filter (λ r. leb cursor r.0) (next ∷ rows),
          rw here refl,
          leb→le cursor row.0 here,
        )
        | inr later ↦
            let (found, rest, e, high) =
              filter_first (suc n) (next ∷ rows) m cursor h.1 (omega arith) early in
            (found, rest, rw later e, high)
      ]

  -- A round of a subscriber of a valid log waits if its cursor is not below the next position of
  -- the stream. Otherwise it yields the oldest event that is kept from the cursor on, moves the
  -- cursor behind it, and never runs out of the list.
  pub poll_lem :
      (log : InMemoryEventLog Ev K) (stream : String) (cursor : ℕ)
      → LogIsValid event_id log
      → ((next_position log stream ≤ cursor) × (poll log stream cursor ≡ none))
        ⊎ ((cursor < next_position log stream)
            × ((row : ℕ × Ev) × (rest : List (ℕ × Ev)) × (filter
                    (λ r. leb cursor r.0)
                    (stream_of log stream).events
                  ≡ row ∷ rest)
                × (cursor ≤ row.0)
                × (poll log stream cursor ≡ some (ok (row, row.0 + 1)))))
  unfolding poll new_stream
  poll_lem log stream cursor v = elim (Bool-cases (leb (next_position log stream) cursor)) [
    | inl wait ↦ inl (leb→le _ cursor wait, rw (wait, poll) refl)
    | inr early ↦
        let w = v.streams stream in
        let same : next_position log stream ≡ (stream_of log stream).next_position = ground arith in
        let low : cursor < (stream_of log stream).next_position = ground arith in
        let (row, rest, e, high) =
          filter_first _ (stream_of log stream).events (stream_of log stream).next_position cursor
            w.rows.numbered (w.started (omega arith)) low in
        inr (
          leb→lt _ cursor early,
          (
            row,
            rest,
            e,
            high,
            rw (early, poll) (rw (read_lem log stream cursor (some 1) v, e) refl),
          ),
        )
  ]
