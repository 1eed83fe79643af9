-- ===== src/Workers/StateStore/View.antt =====
-- The store as a map that changes with time: what a read at a time would return.
use skrift.Prelude.{◌+◌, ltb}
use skrift.Prelude.{
  ℕ, suc, ◌≤◌, ◌≡◌, refl, sym, ap, ◌∙◌, ◌⊎◌, inl, inr, Bool, true, false, Option, none, some, [],
  ◌∷◌, arith, ◌==◌, ==_iff, ℕ_beq, string_beq, if◌then◌else◌, Bool-cases, Option-cases, if_rule,
}
use mathlib.Core.Path.{subst}
use skrift.Prelude.Dict
use skrift.Prelude.Dict.{Dict, IsDistinct, IsFresh}
use skrift.Prelude.Text.{Text, text_beq}
use skrift.Workers.StateStore.{
  StoredValue, StateStore, is_expired, get, stored_until, set, delete, unless_expired,
  current_value, drop_expired, keys, sweep_expired,
}

module _ {V : Type 0} where
  -- The value of a key at a time.
  abbrev pub view : StateStore V → Text → ℕ → Option V
  view store key now = current_value store key now

  -- Once expired, always expired.
  expired_later :
      (stored : StoredValue V) (now later : ℕ)
      → now ≤ later
      → is_expired stored now ≡ true
      → is_expired stored later ≡ true
  expired_later stored now later h e = elim (Option-cases stored.expires_at) [
    | inl forever ↦ absurd (ground (arith, forever, e))
    | inr (t, same) ↦ ground (arith, same, e)
  ]

  drop_expired-IsFresh :
      (store : StateStore V) (clock : ℕ → ℕ) (n : ℕ) (key : Text)
      → IsFresh key store
      → IsFresh key (drop_expired store clock n)
  unfolding drop_expired
  drop_expired-IsFresh [] clock n key h = tt
  drop_expired-IsFresh ((j, stored) ∷ store) clock n key h =
      if_rule (IsFresh key) (is_expired stored (clock n))
        (drop_expired-IsFresh store clock (suc n) key h.1)
        (h.0, drop_expired-IsFresh store clock (suc n) key h.1)

  -- A sweep leaves an entry as it is, or drops it because it has expired.
  get-drop_expired :
      (store : StateStore V) (clock : ℕ → ℕ) (n : ℕ) (key : Text)
      → IsDistinct store
      → (Dict.get (drop_expired store clock n) key ≡ Dict.get store key)
        ⊎ ((stored : StoredValue V) × (i : ℕ) × (Dict.get (drop_expired store clock n) key ≡ none)
            × (Dict.get store key ≡ some stored)
            × (is_expired stored (clock i) ≡ true))
  unfolding drop_expired Dict.get
  get-drop_expired [] clock n key d = inl refl
  get-drop_expired ((j, stored) ∷ store) clock n key d = elim (Bool-cases (j == key)) [
    | inl same ↦ elim (Bool-cases (is_expired stored (clock n))) [
      | inl gone ↦
          let key_fresh : IsFresh key store =
            subst (λ k. IsFresh k store) ((==_iff j key).0 same) d.0 in
          inr (
            stored,
            n,
            rw gone (
                Dict.get_of_IsFresh _ key (drop_expired-IsFresh store clock (suc n) key key_fresh)),
            rw same refl,
            gone,
          )
      | inr kept ↦ inl (rw kept (rw same refl))
    ]
    | inr other ↦ elim (get-drop_expired store clock (suc n) key d.1) [
      | inl rest ↦ inl (ground (arith, other, rest))
      | inr (found, i, missing, there, lapsed) ↦
          inr (found, i, ground (arith, other, missing), rw other there, lapsed)
    ]
  ]

  view-drop_expired :
      (store : StateStore V) (clock : ℕ → ℕ) (n : ℕ) (key : Text) (later : ℕ)
      → IsDistinct store
      → ((i : ℕ) → clock i ≤ later)
      → view (drop_expired store clock n) key later ≡ view store key later
  view-drop_expired store clock n key later d h = elim (get-drop_expired store clock n key d) [
    | inl same ↦ ap (λ o. unless_expired o later) same
    | inr (stored, i, missing, there, lapsed) ↦
        rw (missing, there, view, current_value)
          (rw (expired_later stored (clock i) later (h i) lapsed) refl)
  ]

  unless_expired-if :
      (b : Bool) (o p : Option (StoredValue V)) (now : ℕ)
      → unless_expired (if b then o else p) now
        ≡ (if b then unless_expired o now else unless_expired p now)
  unless_expired-if true o p now = refl
  unless_expired-if false o p now = refl

  view-remove :
      (store : StateStore V) (key other : Text) (now : ℕ)
      → view (Dict.remove store key) other now
        ≡ (if key == other then none else view store other now)
  view-remove store key other now =
      ap (λ o. unless_expired o now) (Dict.get-remove store key other)
      ∙ unless_expired-if (key == other) none (Dict.get store other) now

  -- Taking out an entry that has expired changes no later view.
  view-remove_expired :
      (store : StateStore V) (key other : Text) (stored : StoredValue V) (now later : ℕ)
      → Dict.get store key ≡ some stored
      → is_expired stored now ≡ true
      → now ≤ later
      → view (Dict.remove store key) other later ≡ view store other later
  view-remove_expired store key other stored now later there gone h =
      view-remove store key other later ∙ elim (Bool-cases (key == other)) [
        | inr differ ↦ rw differ refl
        | inl same ↦
            let blank : view store key later ≡ none =
              ap (λ o. unless_expired o later) there
              ∙ rw (expired_later stored now later h gone) refl in
            rw same (sym (subst (λ k. view store k later ≡ none) ((==_iff key other).0 same) blank))
      ]

  get-view :
      (store : StateStore V) (key other : Text) (now later : ℕ)
      → now ≤ later
      → ((get store key now).1 ≡ view store key now)
        × (view (get store key now).0 other later ≡ view store other later)
  unfolding get
  get-view store key other now later h = elim (Option-cases (Dict.get store key)) [
    | inl missing ↦ (rw (missing, get, view, current_value) refl, rw (missing, get) refl)
    | inr (stored, there) ↦ elim (Bool-cases (is_expired stored now)) [
      | inl gone ↦ (
        rw (there, get, view, current_value) (rw gone refl),
        rw (there, get)
            (rw gone (view-remove_expired store key other stored now later there gone h)),
      )
      | inr live ↦
          (rw (there, get, view, current_value) (rw live refl), rw (there, get) (rw live refl))
    ]
  ]

  -- A value set at a time, as it is seen later: for ever, or before its time to live is over.
  abbrev pub live_value : V → Option ℕ → ℕ → ℕ → Option V
  live_value value none set_at later = some value
  live_value value (some ttl) set_at later = if ltb later (set_at + ttl) then some value else none

  unless_expired-live :
      (value : V) (ttl : Option ℕ) (set_at later : ℕ)
      → unless_expired (some (stored_until value ttl set_at)) later
        ≡ live_value value ttl set_at later
  unless_expired-live value none set_at later = refl
  unless_expired-live value (some ttl) set_at later = ground arith

  -- Let the keys of the store be distinct and the readings of the clock not be after `later`. Then
  -- a read at `later` sees, after `set`, the new value of the key if it has no time to live or
  -- `later` is before the time of the call plus its time to live, else none under that key;
  -- after `delete` none, and for all other keys what it saw before. `get` returns what the map has
  -- at its reading, and `get`, `sweep_expired` and `keys` change nothing that a read at `later` sees.
  pub store-view :
      (store : StateStore V) (key other : Text) (value : V) (ttl : Option ℕ) (prefix : Text)
      (clock : ℕ → ℕ) (later : ℕ)
      → IsDistinct store
      → ((i : ℕ) → clock i ≤ later)
      → (view (set store key value ttl (clock 0)) other later
          ≡ (if key == other then live_value value ttl (clock 0) later else view store other later))
        × (view (delete store key) other later
            ≡ (if key == other then none else view store other later))
        × ((get store key (clock 0)).1 ≡ view store key (clock 0))
        × (view (get store key (clock 0)).0 other later ≡ view store other later)
        × (view (sweep_expired store clock).0 other later ≡ view store other later)
        × (view (keys store prefix clock).0 other later ≡ view store other later)
  unfolding set delete get sweep_expired keys
  store-view store key other value ttl prefix clock later d h = (
    rw Dict.get-put (
          unless_expired-if (key == other) (some (stored_until value ttl (clock 0)))
            (Dict.get store other) later)
        ∙ ap (λ o. if key == other then o else view store other later)
            (unless_expired-live value ttl (clock 0) later),
    view-remove store key other later,
    (get-view store key other (clock 0) later (h 0)).0,
    (get-view store key other (clock 0) later (h 0)).1,
    view-drop_expired store clock 0 other later d h,
    view-drop_expired store clock 0 other later d h,
  )
