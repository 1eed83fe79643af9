-- ===== src/Prelude/Dict.antt =====
-- Python's `dict`: entries in the order of their first insertion. Clients use the laws.
use mathlib.Core.Path.{◌≡◌, refl}
use mathlib.Core.Logic.{inl, inr}
use mathlib.Core.Bool.{Bool, false}
use mathlib.Core.Option.{Option, none, some}
use mathlib.Core.List.{List, [], ◌∷◌}
use mathlib.Core.Option
use native.Mathlib.Omega.{arith}
use skrift.Prelude.Tests.{BEq, ◌==◌, ==_iff, ==_refl, Bool-cases, if◌then◌else◌}

abbrev pub when {ℓ} : {V : Type ℓ} → (V → Bool) → Option V → Option V
when p none = none
when p (some v) = if p v then some v else none

-- A dictionary lists its entries, first inserted first.
abbrev pub Dict {ℓ κ} : Type ℓ → Type κ → Type (ℓ ⊔ κ)
Dict K V = List (K × V)

module _ {ℓ κ} {K : Type ℓ} {V : Type κ} ⦃e : BEq K⦄ where
  -- `d.get(k)`
  unfoldable pub get : Dict K V → K → Option V
  get [] k = none
  get ((j, v) ∷ d) k = if j == k then some v else get d k

  -- `d[k] = v`: a key that is there keeps its place
  unfoldable pub put : Dict K V → K → V → Dict K V
  put [] k v = (k, v) ∷ []
  put ((j, w) ∷ d) k v = if j == k then (j, v) ∷ d else (j, w) ∷ put d k v

  -- `d.pop(k, None)`, `del d[k]`
  unfoldable pub remove : Dict K V → K → Dict K V
  remove [] k = []
  remove ((j, v) ∷ d) k = let rest = remove d k in if j == k then rest else (j, v) ∷ rest

  pub get-put :
      (d : Dict K V) (k : K) (v : V) (j : K)
      → get (put d k v) j ≡ (if k == j then some v else get d j)
  unfolding get put
  get-put [] k v j = refl
  get-put ((i, w) ∷ d) k v j = ground (arith, get-put d k v j, ==_iff i k, ==_iff i j, ==_iff k j)

  pub get-remove :
      (d : Dict K V) (k j : K) → get (remove d k) j ≡ (if k == j then none else get d j)
  unfolding get remove
  get-remove [] k j = ground arith
  get-remove ((i, w) ∷ d) k j = ground (arith, get-remove d k j, ==_iff i k, ==_iff i j, ==_iff k j)

  pub get-put_self : (d : Dict K V) (k : K) (v : V) → get (put d k v) k ≡ some v
  get-put_self d k v = simp (get-put, ==_refl)

  pub get-remove_self : (d : Dict K V) (k : K) → get (remove d k) k ≡ none
  get-remove_self d k = simp (get-remove, ==_refl)

module _ {ℓ κ} {K : Type ℓ} {V : Type κ} where
  -- `for v in d.values(): v.mutate()`
  unfoldable pub map_values : (V → V) → Dict K V → Dict K V
  map_values f [] = []
  map_values f ((k, v) ∷ d) = (k, f v) ∷ map_values f d

  -- the entries that pass a test, as a sweep leaves them
  unfoldable pub keep : (V → Bool) → Dict K V → Dict K V
  keep p [] = []
  keep p ((k, v) ∷ d) = let rest = keep p d in if p v then (k, v) ∷ rest else rest

  abbrev pub values : Dict K V → List V
  values [] = []
  values ((k, v) ∷ d) = v ∷ values d

  abbrev pub keys : Dict K V → List K
  keys [] = []
  keys ((k, v) ∷ d) = k ∷ keys d

module _ {ℓ κ} {K : Type ℓ} {V : Type κ} ⦃e : BEq K⦄ where
  pub get-map_values :
      (f : V → V) (d : Dict K V) (k : K) → get (map_values f d) k ≡ Option.map f (get d k)
  unfolding get map_values
  get-map_values f [] k = refl
  get-map_values f ((j, v) ∷ d) k = ground (arith, get-map_values f d k)

  -- No key is listed twice: what Python's `dict` guarantees, and every operation keeps.
  abbrev pub IsFresh : K → Dict K V → Type 0
  IsFresh k [] = Unit
  IsFresh k ((j, v) ∷ d) = ((j == k) ≡ false) × IsFresh k d

  abbrev pub IsDistinct : Dict K V → Type 0
  IsDistinct [] = Unit
  IsDistinct ((k, v) ∷ d) = IsFresh k d × IsDistinct d

  pub get_of_IsFresh : (d : Dict K V) (k : K) → IsFresh k d → get d k ≡ none
  unfolding get
  get_of_IsFresh [] k h = refl
  get_of_IsFresh ((j, v) ∷ d) k h = rw h.0 (get_of_IsFresh d k h.1)

  pub put-IsFresh :
      (d : Dict K V) (k : K) (v : V) (j : K)
      → IsFresh j d
      → (k == j) ≡ false
      → IsFresh j (put d k v)
  unfolding put
  put-IsFresh [] k v j h n = (n, tt)
  put-IsFresh ((i, w) ∷ d) k v j h n = ground (arith, put-IsFresh d k v j h.1 n)

  pub put-IsDistinct : (d : Dict K V) (k : K) (v : V) → IsDistinct d → IsDistinct (put d k v)
  unfolding put
  put-IsDistinct [] k v h = (tt, tt)
  put-IsDistinct ((i, w) ∷ d) k v h =
      ground (arith, put-IsDistinct d k v h.1, put-IsFresh d k v i h.0, ==_iff i k, ==_iff k i)

  pub remove-IsFresh : (d : Dict K V) (k j : K) → IsFresh j d → IsFresh j (remove d k)
  unfolding remove
  remove-IsFresh [] k j h = tt
  remove-IsFresh ((i, w) ∷ d) k j h = ground (arith, remove-IsFresh d k j h.1)

  pub remove-IsDistinct : (d : Dict K V) (k : K) → IsDistinct d → IsDistinct (remove d k)
  unfolding remove
  remove-IsDistinct [] k h = tt
  remove-IsDistinct ((i, w) ∷ d) k h =
      ground (arith, remove-IsDistinct d k h.1, remove-IsFresh d k i h.0)

  pub keep-IsFresh : (p : V → Bool) (d : Dict K V) (j : K) → IsFresh j d → IsFresh j (keep p d)
  unfolding keep
  keep-IsFresh p [] j h = tt
  keep-IsFresh p ((i, w) ∷ d) j h = ground (arith, keep-IsFresh p d j h.1)

  pub keep-IsDistinct : (p : V → Bool) (d : Dict K V) → IsDistinct d → IsDistinct (keep p d)
  unfolding keep
  keep-IsDistinct p [] h = tt
  keep-IsDistinct p ((i, w) ∷ d) h = ground (arith, keep-IsDistinct p d h.1, keep-IsFresh p d i h.0)

  pub get-keep :
      (p : V → Bool) (d : Dict K V) (k : K) → IsDistinct d → get (keep p d) k ≡ when p (get d k)
  unfolding get keep
  get-keep p [] k h = refl
  get-keep p ((j, v) ∷ d) k h = elim (Bool-cases (j == k)) [
    | inl same ↦
        let gone : get d k ≡ none = rw (← (==_iff j k).0 same) (get_of_IsFresh d j h.0) in
        ground (arith, get-keep p d k h.1)
    | inr other ↦ ground (arith, get-keep p d k h.1)
  ]

module _ {ℓ κ} {K : Type ℓ} {V : Type κ} ⦃e : BEq K⦄ where
  pub map_values-IsFresh :
      (f : V → V) (d : Dict K V) (j : K) → IsFresh j d → IsFresh j (map_values f d)
  unfolding map_values
  map_values-IsFresh f [] j h = tt
  map_values-IsFresh f ((i, w) ∷ d) j h = (h.0, map_values-IsFresh f d j h.1)

  pub map_values-IsDistinct :
      (f : V → V) (d : Dict K V) → IsDistinct d → IsDistinct (map_values f d)
  unfolding map_values
  map_values-IsDistinct f [] h = tt
  map_values-IsDistinct f ((i, w) ∷ d) h =
      (map_values-IsFresh f d i h.0, map_values-IsDistinct f d h.1)

  -- What is found behind a first entry with a fresh key stands under another key.
  pub get_behind :
      (j k : K) (w : V) (d : Dict K V) {v : V}
      → IsFresh j d
      → get d k ≡ some v
      → get ((j, w) ∷ d) k ≡ some v
  unfolding get
  get_behind j k w d h found = elim (Bool-cases (j == k)) [
    | inl same ↦
        let gone : get d k ≡ none = rw (← (==_iff j k).0 same) (get_of_IsFresh d j h) in
        ground arith
    | inr other ↦ rw other found
  ]

  pub get_head : (k : K) (v : V) (d : Dict K V) → get ((k, v) ∷ d) k ≡ some v
  unfolding get
  get_head k v d = rw (==_refl k) refl
