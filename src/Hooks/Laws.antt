-- ===== src/Hooks/Laws.antt =====
-- What firing a hook does, and what removing a callback leaves.
use skrift.Prelude.{
  String, ◌≡◌, refl, ap, ◌≢◌, ◌⊎◌, inl, inr, Bool, true, false, none, some, List, [], ◌∷◌, ◌++◌,
  arith, BEq, ◌==◌, ==_iff, ℕ_beq, string_beq, Bool-cases, Option-cases, Result, ok, raise, any,
  All, Result-cases,
}
use skrift.Prelude.Dict
use skrift.Prelude.Dict.{Dict}
use skrift.Prelude.Int.{ℤ, ◌≤ℤ◌}
use skrift.Hooks.{
  HookHandler, HookRegistry, handlers_of, add, add_filter, pop_first, remove, remove_action,
  pass_through, apply_filters,
}
use skrift.Hooks.Order.{IsSorted, handler, sort_sorted, IsSorted-snoc}

module _ {C S E V : Type 0} (call : C → V → S → S × Result E V) where
  -- What follows a callback or a row of callbacks: nothing, once one has raised.
  abbrev pub and_then : S × Result E V → (V → S → S × Result E V) → S × Result E V
  and_then r k = elim r.1 [ ok value ↦ k value r.0 | raise err ↦ (r.0, raise err) ]

  pass_through-append :
      (xs : List (HookHandler C)) (h : HookHandler C) (value : V) (s : S)
      → pass_through call (xs ++ h ∷ []) value s
        ≡ and_then (pass_through call xs value s) (call h.callback)
  unfolding pass_through
  pass_through-append [] h value s = ground arith
  pass_through-append (x ∷ xs) h value s = elim (Result-cases (call x.callback value s).1) [
    | inl (value', e) ↦
        rw (e, pass_through) (pass_through-append xs h value' (call x.callback value s).0)
    | inr (err, e) ↦ rw (e, pass_through) refl
  ]

  -- A filter that is registered with a priority not below those of the others runs last: firing
  -- the hook gives what the others give, passed through it, and stops at the first that raises.
  pub apply_filters-add_last :
      (r : HookRegistry C) (hook_name : String) (callback : C) (priority : ℤ) (value : V) (s : S)
      → IsSorted (handlers_of r.filters hook_name)
      → All (λ x. x.priority ≤ℤ priority) (handlers_of r.filters hook_name)
      → apply_filters call (add_filter r hook_name callback priority) hook_name value s
        ≡ and_then (apply_filters call r hook_name value s) (call callback)
  unfolding apply_filters add_filter add
  apply_filters-add_last r hook_name callback priority value s sorted last =
      let l = handlers_of r.filters hook_name in
      let h = handler (priority, callback) in
      rw (Dict.get-put_self, sort_sorted (l ++ h ∷ []) (IsSorted-snoc l h sorted last))
        (pass_through-append l h value s)

module _ {C : Type 0} ⦃e : BEq C⦄ (callback : C) where
  abbrev pub runs : HookHandler C → Bool
  runs h = h.callback == callback

  pop_first-some :
      (hs : List (HookHandler C)) {hs' : List (HookHandler C)}
      → pop_first callback hs ≡ some hs'
      → (xs ys : List (HookHandler C)) × (h : HookHandler C) × (hs ≡ xs ++ h ∷ ys)
        × (hs' ≡ xs ++ ys)
        × (h.callback ≡ callback)
        × (any runs xs ≡ false)
  unfolding pop_first
  pop_first-some [] e = cc
  pop_first-some (h ∷ hs) {hs'} e = elim (Bool-cases (runs h)) [
    | inl same ↦ ([], hs, h, refl, ground arith, (==_iff h.callback callback).0 same, refl)
    | inr other ↦ elim (Option-cases (pop_first callback hs)) [
      | inl gone ↦ absurd (ground arith)
      | inr (rest, there) ↦
          let (xs, ys, h', split, left, same, before) = pop_first-some hs there in
          (h ∷ xs, ys, h', ap (λ l. h ∷ l) split, ground arith, same, rw other before)
    ]
  ]

  pop_first-none : (hs : List (HookHandler C)) → pop_first callback hs ≡ none → any runs hs ≡ false
  unfolding pop_first
  pop_first-none [] e = refl
  pop_first-none (h ∷ hs) e = ground (arith, pop_first-none hs)

  -- `remove_action` takes out the first handler with the callback, keeps all others in their
  -- order, leaves every other hook and all filters alone, and returns True; where no handler has
  -- the callback it returns False and changes nothing.
  pub remove_action_lem :
      (r : HookRegistry C) (hook_name : String)
      → ((xs ys : List (HookHandler C)) × (h : HookHandler C) × (handlers_of r.actions hook_name
            ≡ xs ++ h ∷ ys)
          × (h.callback ≡ callback)
          × (any runs xs ≡ false)
          × ((remove_action r hook_name callback).1 ≡ true)
          × (handlers_of (remove_action r hook_name callback).0.actions hook_name ≡ xs ++ ys)
          × ((other : String)
              → hook_name ≢ other
              → handlers_of (remove_action r hook_name callback).0.actions other
                ≡ handlers_of r.actions other)
          × ((remove_action r hook_name callback).0.filters ≡ r.filters))
        ⊎ ((any runs (handlers_of r.actions hook_name) ≡ false)
            × (remove_action r hook_name callback ≡ (r, false)))
  unfolding remove_action remove
  remove_action_lem r hook_name =
      let l = handlers_of r.actions hook_name in
      elim (Option-cases (pop_first callback l)) [
        | inl gone ↦ inr (pop_first-none l gone, rw (gone, remove) refl)
        | inr (rest, there) ↦
            let (xs, ys, h, split, left, same, before) = pop_first-some l there in
            inl (
              xs,
              ys,
              h,
              split,
              same,
              before,
              rw (there, remove) refl,
              rw (there, remove) (rw Dict.get-put_self left),
              (λ other ne.
                  rw (there, remove) (rw Dict.get-put (ground (arith, ==_iff hook_name other)))),
              refl,
            )
      ]
