-- ===== src/Workers/EventLog/Append.antt =====
-- `InMemoryEventLog.append`: each event id is kept once, and positions stay what they were.
use skrift.Prelude.{
  ℕ, String, ◌≡◌, refl, sym, ap, ◌∙◌, ◌≢◌, inl, inr, Option, none, some, arith, BEq, ◌==◌, ==_iff,
  ==_refl, ℕ_beq, string_beq, if◌then◌else◌, Bool-cases, Option-cases, Result, ok, raise, if_rule,
  ok-injective,
}
use skrift.Prelude.Dict
use skrift.Prelude.Dict.{Dict}
use skrift.Workers.EventLog.{
  InMemoryEventLog, event_id_conflict, stream_of, with_stream, append, append_unless, find_same_id,
  LogError, EventStream, append_stream,
}
use skrift.Workers.EventLog.Stream.{event_at}
use skrift.Workers.EventLog.Index.{
  LogIsValid, StreamIsValid, append_stream-IsValid, append_stream-event_at, find_by_event_id-cases,
}

module _ {Ev K : Type 0} ⦃eq_id : BEq K⦄ ⦃eq_event : BEq Ev⦄ (event_id : Ev → Option K) where
  -- A call leaves the stream as it was, or has put an event at its end whose id was not there.
  pub data Appended (s : EventStream Ev K) (event : Ev) (r : EventStream Ev K × Result LogError ℕ)
      : Type 0 where
    kept :
        (p : ℕ) (id : K)
        → event_at s.events p ≡ some event
        → event_id event ≡ some id
        → r ≡ (s, ok p)
        → Appended s event r
    refused :
        (p : ℕ) (other : Ev) (id : K)
        → event_at s.events p ≡ some other
        → event_id other ≡ some id
        → event_id event ≡ some id
        → other ≢ event
        → r ≡ (s, raise event_id_conflict)
        → Appended s event r
    appended :
        ((id : K) → event_id event ≡ some id → Dict.get s.positions_by_event_id id ≡ none)
        → r ≡ ((append_stream event_id s event).0, ok s.next_position)
        → Appended s event r

  -- What `append` does to its stream.
  append_unless-cases :
      (s : EventStream Ev K) (event : Ev)
      → StreamIsValid event_id s
      → Appended s event (append_unless event_id s event (find_same_id event_id s event))
  unfolding find_same_id append_unless append_stream
  append_unless-cases s event v = elim (Option-cases (event_id event)) [
    | inl no_id ↦ rw (no_id, find_same_id) (appended (λ id e. absurd (cc)) refl)
    | inr (id, named) ↦ elim (find_by_event_id-cases event_id s id v) [
      | inl (gone, missing) ↦
          rw (named, find_same_id) (rw missing (appended (λ id' e. ground (arith, gone)) refl))
      | inr (p, stored, there, same_id, found) ↦
          rw (named, find_same_id)
            (rw found (elim (Bool-cases (stored == event)) [
              | inl same ↦
                  let e = (==_iff stored event).0 same in
                  rw same (kept p id (there ∙ ap some e) (named) refl)
              | inr other ↦ rw other (
                  refused p stored id there same_id named (λ e. cc ((==_iff stored event).1 e))
                    refl)
            ]))
    ]
  ]

  stream_of-with_stream :
      (log : InMemoryEventLog Ev K) (stream : String) (s : EventStream Ev K) (name : String)
      → stream_of (with_stream log stream s) name
        ≡ (if stream == name then s else stream_of log name)
  stream_of-with_stream log stream s name = ground (arith, Dict.get-put log.streams stream s name)

  Appended-IsValid :
      (s : EventStream Ev K) (event : Ev) (r : EventStream Ev K × Result LogError ℕ)
      → StreamIsValid event_id s
      → Appended s event r
      → StreamIsValid event_id r.0
  Appended-IsValid s event r v (kept p id there named e) = rw e v
  Appended-IsValid s event r v (refused p other id there same named ne e) = rw e v
  Appended-IsValid s event r v (appended fresh e) =
      rw e (append_stream-IsValid event_id s event v fresh)

  -- The event stands at the position that a successful call returns.
  Appended-event_at :
      (s : EventStream Ev K) (event : Ev) (r : EventStream Ev K × Result LogError ℕ)
      → StreamIsValid event_id s
      → Appended s event r
      → {p : ℕ} → r.1 ≡ ok p
      → event_at r.0.events p ≡ some event
  Appended-event_at s event r v (kept p id there named e) {p = p'} ret =
      let same : p ≡ p' =
        ok-injective (sym (ap (λ (x : EventStream Ev K × Result LogError ℕ). x.1) e) ∙ ret) in
      rw (e, ← same) there
  Appended-event_at s event r v (refused p other id there same named ne e) ret =
      absurd (cc (ap (λ (x : EventStream Ev K × Result LogError ℕ). x.1) e))
  Appended-event_at s event r v (appended fresh e) {p = p'} ret =
      let same : s.next_position ≡ p' =
        ok-injective (sym (ap (λ (x : EventStream Ev K × Result LogError ℕ). x.1) e) ∙ ret) in
      rw (e, ← same) (append_stream-event_at event_id s event v)

  -- `append` keeps a log valid: in every stream the events are numbered without a gap up to the
  -- next position, there are never more than the cap, and the index maps exactly the ids of the
  -- events that are kept to their positions.
  pub append-LogIsValid :
      (log : InMemoryEventLog Ev K) (stream : String) (event : Ev)
      → LogIsValid event_id log
      → LogIsValid event_id (append event_id log stream event).0
  unfolding append
  append-LogIsValid log stream event v =
      let s = stream_of log stream in
      let w = v.streams stream in
      record {
        positive = v.positive;
        streams = λ name.
            rw
              (stream_of-with_stream log stream
                (append_unless event_id s event (find_same_id event_id s event)).0 name)
              (if_rule (StreamIsValid event_id) (stream == name)
                (Appended-IsValid s event _ w (append_unless-cases s event w)) (v.streams name));
      }

  -- In a valid log a call of `append` ends in one of three ways: the same event with its id is
  -- still there, and the call returns its position and changes no stream; another event has the
  -- id, and the call raises a conflict and changes no stream; or no event has the id, the event
  -- goes to the end of its stream, and the call returns the position that was next. It never
  -- raises anything else, and after a call that returns a position the event stands there.
  pub append_lem :
      (log : InMemoryEventLog Ev K) (stream : String) (event : Ev)
      → LogIsValid event_id log
      → Appended (stream_of log stream) event (
        stream_of (append event_id log stream event).0 stream,
        (append event_id log stream event).1,
      )
        × ((other : String)
            → stream ≢ other
            → stream_of (append event_id log stream event).0 other ≡ stream_of log other)
        × ((p : ℕ)
            → (append event_id log stream event).1 ≡ ok p
            → event_at (stream_of (append event_id log stream event).0 stream).events p
              ≡ some event)
  unfolding append
  append_lem log stream event v =
      let s = stream_of log stream in
      let r = append_unless event_id s event (find_same_id event_id s event) in
      let cases = append_unless-cases s event (v.streams stream) in
      let mine : stream_of (with_stream log stream r.0) stream ≡ r.0 =
        rw (stream_of-with_stream log stream r.0 stream) (rw (==_refl stream) refl) in
      (
        rw mine cases,
        λ other ne. ground (arith, stream_of-with_stream log stream r.0 other, ==_iff stream other),
        λ p ret. rw mine (Appended-event_at s event r (v.streams stream) cases ret),
      )
