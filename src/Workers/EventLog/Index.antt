-- ===== src/Workers/EventLog/Index.antt =====
-- What holds of a stream: its events are numbered without a gap up to the next position, there
-- are never more than the cap, and the index has exactly the ids of the events that are kept.
use skrift.Workers.EventLog.Stream.{event_at-below}
use skrift.Prelude.{
  ℕ, suc, ◌+◌, ◌-◌, ◌≤◌, ◌<◌, String, ◌≡◌, refl, ap, ◌∙◌, ◌⊎◌, inl, inr, true, Option, none, some,
  List, [], ◌∷◌, ◌++◌, arith, BEq, ◌==◌, ==_iff, ℕ_beq, string_beq, leb, eqb, leb→lt, Bool-cases,
  Option-cases, ok, length, length-append,
}
use skrift.Prelude.Dict
use skrift.Prelude.Dict.{Dict}
use skrift.Workers.EventLog.{
  EventStream, push, index, start_position, at, is_full, new_stream, find_by_event_id,
  forget_event_id, note_event_id, append_stream, first_position, InMemoryEventLog, stream_of,
}
use skrift.Workers.EventLog.Stream.{
  Numbered, event_at, Numbered-snoc, event_at-above, event_at-snoc, event_at-tail,
  get_elem?-event_at,
}

module _ {Ev K : Type 0} ⦃eq_id : BEq K⦄ (event_id : Ev → Option K) where
  -- Rows numbered from `n` up to `m`, with the index of their ids.
  pub record RowsAreValid (n : ℕ) (rows : List (ℕ × Ev)) (d : Dict K ℕ) (m : ℕ) : Type 0 where
    pub numbered : Numbered n rows m
    pub indexed :
        (id : K) (p : ℕ)
        → Dict.get d id ≡ some p
        → (event : Ev) × (event_at rows p ≡ some event) × (event_id event ≡ some id)
    pub complete :
        (p : ℕ) (event : Ev) (id : K)
        → event_at rows p ≡ some event
        → event_id event ≡ some id
        → Dict.get d id ≡ some p

  pub record StreamIsValid (s : EventStream Ev K) : Type 0 where
    pub positive : 0 < s.max_events
    pub bounded : length s.events ≤ s.max_events
    pub started : 0 < s.next_position → 0 < length s.events
    pub rows : RowsAreValid (start_position s) s.events s.positions_by_event_id s.next_position

  pub new_stream-IsValid : (max_events : ℕ) → 0 < max_events → StreamIsValid (new_stream max_events)
  unfolding new_stream event_at Dict.get
  new_stream-IsValid max_events h = record {
    positive = h;
    bounded = omega arith;
    started = λ later. later;
    rows = record { numbered = refl; indexed = λ id p e. cc; complete = λ p event id e f. cc };
  }

  -- The oldest row goes, and its id with it.
  evict-RowsAreValid :
      (n : ℕ) (first : ℕ × Ev) (rows : List (ℕ × Ev)) (d : Dict K ℕ) (m : ℕ)
      → RowsAreValid n (first ∷ rows) d m
      → RowsAreValid (suc n) rows (forget_event_id event_id first.1 d) m
  unfolding forget_event_id event_at
  evict-RowsAreValid n (q, old) rows d m v = record {
    numbered = v.numbered.1;
    indexed = λ id p e. elim (Option-cases (event_id old)) [
      | inl no_id ↦
          let (event, there, named) = v.indexed id p (ground arith) in
          (event, ground (arith, event_at-tail n (q, old) rows m p v.numbered, v.numbered.0), named)
      | inr (old_id, is_old) ↦
          let (event, there, named) =
            v.indexed id p (ground (arith, Dict.get-remove d old_id id)) in
          (
            event,
            ground (
              arith,
              event_at-tail n (q, old) rows m p v.numbered,
              v.numbered.0,
              Dict.get-remove d old_id id,
              ==_iff old_id id,
            ),
            named,
          )
    ];
    complete = λ p event id there named. elim (Option-cases (event_id old)) [
      | inl no_id ↦
          rw (no_id, forget_event_id)
            (v.complete p event id
              (ground (arith, event_at-tail n (q, old) rows m p v.numbered, v.numbered.0)) named)
      | inr (old_id, is_old) ↦
          let here =
            v.complete p event id
              (ground (arith, event_at-tail n (q, old) rows m p v.numbered, v.numbered.0)) named in
          let first_there = v.complete q old old_id (ground arith) is_old in
          rw (is_old, forget_event_id)
            (ground (
              arith,
              Dict.get-remove d old_id id,
              ==_iff old_id id,
              here,
              first_there,
              event_at-tail n (q, old) rows m p v.numbered,
              v.numbered.0,
            ))
    ];
  }

  -- A new row behind the others, whose id is not indexed yet.
  extend-RowsAreValid :
      (n : ℕ) (rows : List (ℕ × Ev)) (d : Dict K ℕ) (m : ℕ) (event : Ev)
      → RowsAreValid n rows d m
      → ((id : K) → event_id event ≡ some id → Dict.get d id ≡ none)
      → RowsAreValid n (rows ++ (m, event) ∷ []) (note_event_id (event_id event) m d) (suc m)
  extend-RowsAreValid n rows d m event v fresh = record {
    numbered = Numbered-snoc n rows m event v.numbered;
    indexed = λ id p e. elim (Option-cases (event_id event)) [
      | inl no_id ↦ old_row id p (rw no_id at e)
      | inr (new_id, is_new) ↦ elim (Bool-cases (new_id == id)) [
        | inl same ↦
            let here : m ≡ p = ground (arith, Dict.get-put d new_id m id) in
            (
              event,
              ground (arith, event_at-snoc n rows m p event v.numbered),
              is_new ∙ ap some ((==_iff new_id id).0 same),
            )
        | inr other ↦ old_row id p (ground (arith, Dict.get-put d new_id m id))
      ]
    ];
    complete = λ p event' id there named. elim (Bool-cases (eqb m p)) [
      | inl here ↦
          let same : event ≡ event' = ground (arith, event_at-snoc n rows m p event v.numbered) in
          let is_new : event_id event ≡ some id = rw same named in
          rw (is_new, note_event_id) (ground (arith, Dict.get-put_self d id m))
      | inr before ↦
          let old : event_at rows p ≡ some event' =
            ground (arith, event_at-snoc n rows m p event v.numbered) in
          let at_old = v.complete p event' id old named in
          elim (Option-cases (event_id event)) [
            | inl no_id ↦ rw (no_id, note_event_id) at_old
            | inr (new_id, is_new) ↦
                rw (is_new, note_event_id)
                  (ground (
                    arith,
                    Dict.get-put d new_id m id,
                    ==_iff new_id id,
                    fresh new_id is_new,
                    at_old,
                  ))
          ]
    ];
  }
    where
      old_row :
          (id : K) (p : ℕ)
          → Dict.get d id ≡ some p
          → (old : Ev) × (event_at (rows ++ (m, event) ∷ []) p ≡ some old)
            × (event_id old ≡ some id)
      old_row id p e =
          let (old, there, named) = v.indexed id p e in
          (
            old,
            ground (
              arith,
              event_at-snoc n rows m p event v.numbered,
              event_at-above n rows m p v.numbered,
              there,
            ),
            named,
          )

  push_room :
      (max_events : ℕ) (rows : List (ℕ × Ev)) (row : ℕ × Ev)
      → length rows < max_events
      → push max_events rows row ≡ rows ++ row ∷ []
  unfolding push
  push_room max_events rows row h = ground arith

  push_full :
      (max_events : ℕ) (first : ℕ × Ev) (rows : List (ℕ × Ev)) (row : ℕ × Ev)
      → suc (length rows) ≡ max_events
      → push max_events (first ∷ rows) row ≡ rows ++ row ∷ []
  unfolding push
  push_full max_events first rows row h =
      let one : suc (suc (length rows)) - max_events ≡ 1 = omega arith in
      let full : leb max_events (suc (length rows)) ≡ true = ground arith in rw full (rw one refl)

  Numbered-first :
      (n : ℕ) (rows : List (ℕ × Ev)) (m : ℕ)
      → Numbered n rows m
      → Numbered (first_position rows m) rows m
  Numbered-first n [] m h = refl
  Numbered-first n ((q, event) ∷ rows) m h = (refl, rw h.0 h.1)

  stream_of_rows :
      (max_events n : ℕ) (rows : List (ℕ × Ev)) (d : Dict K ℕ) (m : ℕ)
      → 0 < max_events
      → length rows ≤ max_events
      → 0 < length rows
      → RowsAreValid n rows d m
      → StreamIsValid (record {
        max_events = max_events;
        events = rows;
        positions_by_event_id = d;
        next_position = m;
      })
  stream_of_rows max_events n rows d m positive bounded some_row v = record {
    positive = positive;
    bounded = bounded;
    started = λ _. some_row;
    rows = record {
      numbered = Numbered-first n rows m v.numbered;
      indexed = v.indexed;
      complete = v.complete;
    };
  }

  append_parts :
      (max_events : ℕ) (rows : List (ℕ × Ev)) (d : Dict K ℕ) (m : ℕ) (event : Ev)
      → 0 < max_events
      → length rows ≤ max_events
      → RowsAreValid (first_position rows m) rows d m
      → ((id : K) → event_id event ≡ some id → Dict.get d id ≡ none)
      → StreamIsValid
          (append_stream event_id
            (record {
              max_events = max_events;
              events = rows;
              positions_by_event_id = d;
              next_position = m;
            })
            event).0
  unfolding append_stream is_full
  append_parts max_events [] d m event positive bounded v fresh =
      rw (push_room max_events [] (m, event) positive) (
        stream_of_rows max_events m ((m, event) ∷ []) (note_event_id (event_id event) m d) (suc m)
          positive positive (omega arith) (extend-RowsAreValid m [] d m event v fresh))
  append_parts max_events (first ∷ rows) d m event positive bounded v fresh =
      elim (Bool-cases (eqb (suc (length rows)) max_events)) [
        | inl full ↦
            let fits : suc (length rows) ≡ max_events = ground arith in
            rw (push_full max_events first rows (m, event) fits, full)
              (stream_of_rows max_events (suc first.0) (rows ++ (m, event) ∷ [])
                (note_event_id (event_id event) m (forget_event_id event_id first.1 d)) (suc m)
                positive (omega (arith, length-append rows ((m, event) ∷ [])))
                (omega (arith, length-append rows ((m, event) ∷ [])))
                (extend-RowsAreValid (suc first.0) rows (forget_event_id event_id first.1 d) m event
                  (evict-RowsAreValid first.0 first rows d m v)
                  (λ id is_new. still_fresh first.1 id (fresh id is_new))))
        | inr room ↦
            let fits : suc (length rows) < max_events = ground arith in
            rw (push_room max_events (first ∷ rows) (m, event) fits, room)
              (stream_of_rows max_events first.0 (first ∷ (rows ++ (m, event) ∷ []))
                (note_event_id (event_id event) m d) (suc m) positive
                (omega (arith, length-append rows ((m, event) ∷ [])))
                (omega (arith, length-append rows ((m, event) ∷ [])))
                (extend-RowsAreValid first.0 (first ∷ rows) d m event v fresh))
      ]
    where
      still_fresh :
          (old : Ev) (id : K)
          → Dict.get d id ≡ none
          → Dict.get (forget_event_id event_id old d) id ≡ none
      still_fresh old id gone = elim (Option-cases (event_id old)) [
        | inl no_id ↦ rw (no_id, forget_event_id) gone
        | inr (old_id, is_old) ↦
            rw (is_old, forget_event_id) (ground (arith, Dict.get-remove d old_id id))
      ]

  pub append_stream-IsValid :
      (s : EventStream Ev K) (event : Ev)
      → StreamIsValid s
      → ((id : K) → event_id event ≡ some id → Dict.get s.positions_by_event_id id ≡ none)
      → StreamIsValid (append_stream event_id s event).0
  append_stream-IsValid s event v fresh =
      append_parts s.max_events s.events s.positions_by_event_id s.next_position event v.positive
        v.bounded v.rows fresh

  push_parts :
      (max_events : ℕ) (rows : List (ℕ × Ev)) (m : ℕ) (event : Ev)
      → 0 < max_events
      → length rows ≤ max_events
      → Numbered (first_position rows m) rows m
      → (n : ℕ) × (kept : List (ℕ × Ev)) × (push max_events rows (m, event)
          ≡ kept ++ (m, event) ∷ [])
        × Numbered n kept m
  push_parts max_events [] m event positive bounded h =
      (m, [], push_room max_events [] (m, event) positive, refl)
  push_parts max_events (first ∷ rows) m event positive bounded h =
      elim (Bool-cases (eqb (suc (length rows)) max_events)) [
        | inl full ↦
            (suc first.0, rows, push_full max_events first rows (m, event) (ground arith), h.1)
        | inr room ↦ (
          first.0,
          first ∷ rows,
          push_room max_events (first ∷ rows) (m, event) (ground arith),
          h,
        )
      ]

  -- The new event stands at the position that was next.
  pub append_stream-event_at :
      (s : EventStream Ev K) (event : Ev)
      → StreamIsValid s
      → event_at (append_stream event_id s event).0.events s.next_position ≡ some event
  unfolding append_stream
  append_stream-event_at s event v =
      let (n, kept, e, h) =
        push_parts s.max_events s.events s.next_position event v.positive v.bounded
          v.rows.numbered in
      rw e (ground (arith, event_at-snoc n kept s.next_position s.next_position event h))

  -- The event at a position that is kept is read without running out of the deque.
  at-some :
      (s : EventStream Ev K) (p : ℕ) {event : Ev}
      → StreamIsValid s
      → event_at s.events p ≡ some event
      → at s p ≡ ok event
  unfolding at index
  at-some s p {event} v there =
      let n = start_position s in
      elim (Bool-cases (leb n p)) [
        | inl above ↦
            let e : n + (p - n) ≡ p = ground arith in
            let row =
              get_elem?-event_at n s.events s.next_position (p - n) v.rows.numbered (rw e there) in
            rw (above, at, index) (rw row refl)
        | inr low ↦
            absurd
              (cc (event_at-below n s.events s.next_position p v.rows.numbered (leb→lt n p low)))
      ]

  -- A look-up in a valid stream never raises. It finds the event that has the id, with its
  -- position, or there is none.
  pub find_by_event_id-cases :
      (s : EventStream Ev K) (id : K)
      → StreamIsValid s
      → ((Dict.get s.positions_by_event_id id ≡ none) × (find_by_event_id event_id s id ≡ ok none))
        ⊎ ((p : ℕ) × (event : Ev) × (event_at s.events p ≡ some event)
            × (event_id event ≡ some id)
            × (find_by_event_id event_id s id ≡ ok (some (p, event))))
  unfolding find_by_event_id
  find_by_event_id-cases s id v = elim (Option-cases (Dict.get s.positions_by_event_id id)) [
    | inl gone ↦ inl (gone, rw (gone, find_by_event_id) refl)
    | inr (p, found) ↦
        let (event, there, named) = v.rows.indexed id p found in
        inr (p, event, there, named, rw (found, find_by_event_id) (rw (at-some s p v there) refl))
  ]

  pub record LogIsValid (log : InMemoryEventLog Ev K) : Type 0 where
    pub positive : 0 < log.max_events_per_stream
    pub streams : (name : String) → StreamIsValid (stream_of log name)
