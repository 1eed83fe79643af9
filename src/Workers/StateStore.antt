-- ===== src/Workers/StateStore.antt =====
-- `InMemoryStateStore` of skrift/workers/memory.py. `clock n` is what the n-th call of `_now()` in
-- the method returns; the result of `resolve_ttl`, which a value may decide, is an argument.
pub mod View
mod Tests
use skrift.Prelude.Text.{starts_with}
use skrift.Prelude.{
  ℕ, suc, ◌+◌, ◌-◌, Bool, false, Option, none, some, List, [], ◌∷◌, ℕ_beq, string_beq, leb,
  if◌then◌else◌, length, filter,
}
use skrift.Prelude.Dict
use skrift.Prelude.Dict.{Dict}
use skrift.Prelude.Text.{Text, text_beq}

pub record StoredValue (V : Type 0) : Type 0 where
  pub value : V
  pub expires_at : Option ℕ

abbrev pub StateStore : Type 0 → Type 0
StateStore V = Dict Text (StoredValue V)

module _ {V : Type 0} where
  -- `stored.expires_at is not None and stored.expires_at <= now`
  abbrev pub is_expired : StoredValue V → ℕ → Bool
  is_expired stored now = elim stored.expires_at [
    | none ↦ false
    | some expires_at ↦ leb expires_at now
  ]

  -- An expired value is taken out where it is read.
  unfoldable pub get : StateStore V → Text → ℕ → StateStore V × Option V
  get store key now = elim (Dict.get store key) [
    | none ↦ (store, none)
    | some stored ↦
        if is_expired stored now then (Dict.remove store key, none) else (store, some stored.value)
  ]

  abbrev pub stored_until : V → Option ℕ → ℕ → StoredValue V
  stored_until value none now = record { value = value; expires_at = none }
  stored_until value (some ttl) now = record { value = value; expires_at = some (now + ttl) }

  unfoldable pub set : StateStore V → Text → V → Option ℕ → ℕ → StateStore V
  set store key value ttl now = Dict.put store key (stored_until value ttl now)

  unfoldable pub delete : StateStore V → Text → StateStore V
  delete store key = Dict.remove store key

  abbrev pub unless_expired : Option (StoredValue V) → ℕ → Option V
  unless_expired none now = none
  unless_expired (some stored) now = if is_expired stored now then none else some stored.value

  -- What `update` hands to its function.
  abbrev pub current_value : StateStore V → Text → ℕ → Option V
  current_value store key now = unless_expired (Dict.get store key) now

  unfoldable pub update :
      StateStore V → Text → (Option V → V) → (V → Option ℕ) → (ℕ → ℕ) → StateStore V × V
  update store key fn ttl_of clock =
      let next_value = fn (current_value store key (clock 0)) in
      (Dict.put store key (stored_until next_value (ttl_of next_value) (clock 1)), next_value)

  -- The loop that drops expired entries; the clock is read for each.
  unfoldable pub drop_expired : StateStore V → (ℕ → ℕ) → ℕ → StateStore V
  drop_expired [] clock n = []
  drop_expired ((key, stored) ∷ entries) clock n =
      let rest = drop_expired entries clock (suc n) in
      if is_expired stored (clock n) then rest else (key, stored) ∷ rest

  -- The keys with a prefix, before they are sorted.
  unfoldable pub keys : StateStore V → Text → (ℕ → ℕ) → StateStore V × List Text
  unfolding drop_expired
  keys store prefix clock =
      let kept = drop_expired store clock 0 in (kept, filter (starts_with prefix) (Dict.keys kept))

  unfoldable pub sweep_expired : StateStore V → (ℕ → ℕ) → StateStore V × ℕ
  unfolding drop_expired
  sweep_expired store clock =
      let kept = drop_expired store clock 0 in (kept, length store - length kept)
