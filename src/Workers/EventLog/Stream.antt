-- ===== src/Workers/EventLog/Stream.antt =====
-- Rows of a stream that are numbered without a gap.
use skrift.Prelude.{
  ℕ, zero, suc, ◌+◌, ◌-◌, ◌≤◌, ◌<◌, ◌≡◌, refl, sym, ◌∙◌, inl, inr, Option, none, some, List, [],
  ◌∷◌, ◌++◌, arith, ℕ_beq, string_beq, leb, eqb, if◌then◌else◌, leb→le, Bool-cases, length,
  get_elem?, drop, filter,
}

module _ {Ev : Type 0} where
  -- The events are numbered `n`, `n + 1` and so on, and the next number is `m`.
  abbrev pub Numbered : ℕ → List (ℕ × Ev) → ℕ → Type 0
  Numbered n [] m = n ≡ m
  Numbered n ((p, event) ∷ rows) m = (p ≡ n) × Numbered (suc n) rows m

  -- The event at a position.
  unfoldable pub event_at : List (ℕ × Ev) → ℕ → Option Ev
  event_at [] p = none
  event_at ((q, event) ∷ rows) p = if eqb q p then some event else event_at rows p

  pub Numbered-length :
      (n : ℕ) (rows : List (ℕ × Ev)) (m : ℕ) → Numbered n rows m → n + length rows ≡ m
  Numbered-length n [] m h = omega arith
  Numbered-length n (row ∷ rows) m h = omega (arith, Numbered-length (suc n) rows m h.1)

  pub Numbered-snoc :
      (n : ℕ) (rows : List (ℕ × Ev)) (m : ℕ) (event : Ev)
      → Numbered n rows m
      → Numbered n (rows ++ (m, event) ∷ []) (suc m)
  Numbered-snoc n [] m event h = (sym h, rw h refl)
  Numbered-snoc n (row ∷ rows) m event h = (h.0, Numbered-snoc (suc n) rows m event h.1)

  pub event_at-below :
      (n : ℕ) (rows : List (ℕ × Ev)) (m p : ℕ) → Numbered n rows m → p < n → event_at rows p ≡ none
  unfolding event_at
  event_at-below n [] m p h low = refl
  event_at-below n (row ∷ rows) m p h low = ground (arith, event_at-below (suc n) rows m p h.1)

  pub event_at-above :
      (n : ℕ) (rows : List (ℕ × Ev)) (m p : ℕ) → Numbered n rows m → m ≤ p → event_at rows p ≡ none
  unfolding event_at
  event_at-above n [] m p h high = refl
  event_at-above n ((q, event) ∷ rows) m p h high =
      ground (arith, event_at-above (suc n) rows m p h.1, Numbered-length (suc n) rows m h.1)

  pub event_at-snoc :
      (n : ℕ) (rows : List (ℕ × Ev)) (m p : ℕ) (event : Ev)
      → Numbered n rows m
      → event_at (rows ++ (m, event) ∷ []) p ≡ (if eqb m p then some event else event_at rows p)
  unfolding event_at
  event_at-snoc n [] m p event h = refl
  event_at-snoc n ((q, first) ∷ rows) m p event h =
      ground (arith, event_at-snoc (suc n) rows m p event h.1, Numbered-length (suc n) rows m h.1)

  -- The position of a row is its place in the list, counted from the first.
  pub get_elem?-event_at :
      (n : ℕ) (rows : List (ℕ × Ev)) (m i : ℕ) {event : Ev}
      → Numbered n rows m
      → event_at rows (n + i) ≡ some event
      → get_elem? rows i ≡ some (n + i, event)
  unfolding event_at
  get_elem?-event_at n [] m i h e = cc
  get_elem?-event_at n ((q, first) ∷ rows) m zero h e = ground arith
  get_elem?-event_at n ((q, first) ∷ rows) m (suc i) h e =
      let shift : suc n + i ≡ n + suc i = omega arith in
      let later : event_at rows (suc n + i) ≡ event_at ((q, first) ∷ rows) (n + suc i) =
        rw shift (ground (arith, h.0)) in
      rw (← shift) (get_elem?-event_at (suc n) rows m i h.1 (later ∙ e))

  filter_low :
      (n : ℕ) (rows : List (ℕ × Ev)) (m p : ℕ)
      → Numbered n rows m
      → p ≤ n
      → filter (λ row. leb p row.0) rows ≡ rows
  filter_low n [] m p h low = refl
  filter_low n (row ∷ rows) m p h low = ground (arith, filter_low (suc n) rows m p h.1)

  -- What is dropped in front is what stands below a position.
  pub drop-filter :
      (n : ℕ) (rows : List (ℕ × Ev)) (m p : ℕ)
      → Numbered n rows m
      → drop (p - n) rows ≡ filter (λ row. leb p row.0) rows
  drop-filter n [] m p h = elim (Bool-cases (leb p n)) [
    | inl low ↦ let e : p - n ≡ 0 = ground arith in rw e refl
    | inr high ↦ let e : p - n ≡ suc (p - suc n) = ground arith in rw e refl
  ]
  drop-filter n (row ∷ rows) m p h = elim (Bool-cases (leb p n)) [
    | inl low ↦
        let e : p - n ≡ 0 = ground arith in
        rw e (sym (filter_low n (row ∷ rows) m p h (leb→le p n low)))
    | inr high ↦
        let e : p - n ≡ suc (p - suc n) = ground arith in
        rw e (ground (arith, drop-filter (suc n) rows m p h.1))
  ]

  -- Of a list in which one event may be dropped in front, the rest is numbered from the next on.
  pub event_at-tail :
      (n : ℕ) (first : ℕ × Ev) (rows : List (ℕ × Ev)) (m p : ℕ)
      → Numbered n (first ∷ rows) m
      → event_at rows p ≡ (if eqb n p then none else event_at (first ∷ rows) p)
  unfolding event_at
  event_at-tail n (q, event) rows m p h = ground (arith, event_at-below (suc n) rows m p h.1)
