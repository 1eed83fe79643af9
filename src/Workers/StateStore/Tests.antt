-- ===== src/Workers/StateStore/Tests.antt =====
-- A store with two keys, and the theorem about stores at it.
use skrift.Prelude.{
  ℕ, ◌≡◌, refl, none, some, [], ◌∷◌, arith, ◌==◌, ℕ_beq, string_beq, if◌then◌else◌,
}
use skrift.Prelude.Dict
use skrift.Prelude.Text.{text_beq, codes}
use skrift.Workers.StateStore.{StateStore, get, set, delete, update, keys, sweep_expired}
use skrift.Workers.StateStore.View.{view, live_value, store-view}

abbrev sample : StateStore ℕ
sample =
    (codes "a", record { value = 1; expires_at = some 10 })
    ∷ (codes "b", record { value = 2; expires_at = none })
    ∷ []

program : Unit {0}
unfolding get set delete update keys sweep_expired Dict.get Dict.put Dict.remove
program = tt

sweep_expired_test :
    sweep_expired sample (λ n. 10) ≡ ((codes "b", record { value = 2; expires_at = none }) ∷ [], 1)
unfolding program
sweep_expired_test = refl

store-view_example :
    (view (set sample (codes "a") 3 (some 5) 11) (codes "a") 20 ≡ (
      if codes "a" == codes "a" then live_value 3 (some 5) 11 20 else view sample (codes "a") 20))
    × (view (delete sample (codes "a")) (codes "a") 20
        ≡ (if codes "a" == codes "a" then none else view sample (codes "a") 20))
    × ((get sample (codes "a") 11).1 ≡ view sample (codes "a") 11)
    × (view (get sample (codes "a") 11).0 (codes "a") 20 ≡ view sample (codes "a") 20)
    × (view (sweep_expired sample (λ n. 11)).0 (codes "a") 20 ≡ view sample (codes "a") 20)
    × (view (keys sample [] (λ n. 11)).0 (codes "a") 20 ≡ view sample (codes "a") 20)
store-view_example =
    store-view sample (codes "a") (codes "a") 3 (some 5) [] (λ n. 11) 20 ((refl, tt), (tt, tt))
      (λ i. omega arith)
