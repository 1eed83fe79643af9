-- ===== src/Hooks.antt =====
-- skrift/hooks.py: `HookHandler` and `HookRegistry`.
-- A callback is a value of type `C` that Python's `is` tells apart, and an instance `Call` says
-- what calling it does. Awaiting a coroutine and calling a plain function are the same here.
pub mod Order
pub mod Laws
mod Tests
use skrift.Prelude.{
  String, Bool, true, false, Option, none, some, List, [], ◌∷◌, ◌++◌, BEq, ◌==◌, ℕ_beq, string_beq,
  if◌then◌else◌, or_else, Result, ok, raise,
}
use skrift.Prelude.Dict
use skrift.Prelude.Dict.{Dict}
use skrift.Prelude.Int.{ℤ, leb_ℤ}

pub record HookHandler (C : Type 0) : Type 0 where
  pub priority : ℤ
  pub callback : C

pub record HookRegistry (C : Type 0) : Type 0 where
  pub actions : Dict String (List (HookHandler C))
  pub filters : Dict String (List (HookHandler C))

-- What `list.sort` does with handlers, which compare by priority alone: each handler goes behind
-- those whose priority is not greater, so the sort is stable.
module _ {C : Type 0} where
  unfoldable pub insert : HookHandler C → List (HookHandler C) → List (HookHandler C)
  insert h [] = h ∷ []
  insert h (x ∷ xs) =
      let rest = insert h xs in if leb_ℤ x.priority h.priority then x ∷ rest else h ∷ x ∷ xs

  unfoldable pub sort_onto : List (HookHandler C) → List (HookHandler C) → List (HookHandler C)
  unfolding insert
  sort_onto sorted [] = sorted
  sort_onto sorted (x ∷ xs) = sort_onto (insert x sorted) xs

  unfoldable pub sort : List (HookHandler C) → List (HookHandler C)
  unfolding sort_onto
  sort xs = sort_onto [] xs

  abbrev pub new : HookRegistry C
  new = record { actions = []; filters = [] }

  -- `handlers[hook_name]` of the `defaultdict`
  abbrev pub handlers_of : Dict String (List (HookHandler C)) → String → List (HookHandler C)
  handlers_of d hook_name = or_else (Dict.get d hook_name) []

  -- `append`, then `sort`
  unfoldable pub add :
      Dict String (List (HookHandler C)) → String → C → ℤ → Dict String (List (HookHandler C))
  unfolding sort
  add d hook_name callback priority =
      Dict.put d hook_name
        (sort (handlers_of d hook_name ++ record { priority = priority; callback = callback } ∷ []))

  unfoldable pub add_action : HookRegistry C → String → C → ℤ → HookRegistry C
  unfolding add
  add_action r hook_name callback priority = record r {
    actions = add r.actions hook_name callback priority;
  }

  unfoldable pub add_filter : HookRegistry C → String → C → ℤ → HookRegistry C
  unfolding add
  add_filter r hook_name callback priority = record r {
    filters = add r.filters hook_name callback priority;
  }

  unfoldable pub has_action : HookRegistry C → String → Bool
  has_action r hook_name = elim (handlers_of r.actions hook_name) [ [] ↦ false | _ ↦ true ]

  unfoldable pub has_filter : HookRegistry C → String → Bool
  has_filter r hook_name = elim (handlers_of r.filters hook_name) [ [] ↦ false | _ ↦ true ]

  unfoldable pub clear : HookRegistry C → HookRegistry C
  clear r = record { actions = []; filters = [] }

module _ {C : Type 0} ⦃e : BEq C⦄ where
  -- The loop that pops the first handler with the callback: the list without it, if it is there.
  unfoldable pub pop_first : C → List (HookHandler C) → Option (List (HookHandler C))
  pop_first callback [] = none
  pop_first callback (h ∷ hs) =
      let rest = pop_first callback hs in
      if h.callback == callback
      then some hs
      else elim rest [ none ↦ none | some hs' ↦ some (h ∷ hs') ]

  unfoldable pub remove :
      Dict String (List (HookHandler C)) → String → C → Dict String (List (HookHandler C)) × Bool
  unfolding pop_first
  remove d hook_name callback = elim (pop_first callback (handlers_of d hook_name)) [
    | none ↦ (d, false)
    | some handlers ↦ (Dict.put d hook_name handlers, true)
  ]

  unfoldable pub remove_action : HookRegistry C → String → C → HookRegistry C × Bool
  unfolding remove
  remove_action r hook_name callback =
      let (d, found) = remove r.actions hook_name callback in (record r { actions = d }, found)

  unfoldable pub remove_filter : HookRegistry C → String → C → HookRegistry C × Bool
  unfolding remove
  remove_filter r hook_name callback =
      let (d, found) = remove r.filters hook_name callback in (record r { filters = d }, found)

-- Calls of callbacks may raise, and change a state `S` of the program.
module _ {C S E : Type 0} where
  -- `await handler.call(...)` for each handler, in order; an exception ends the loop
  unfoldable pub call_all :
      (C → S → S × Result E (Unit {0})) → List (HookHandler C) → S → S × Result E (Unit {0})
  call_all call [] s = (s, ok tt)
  call_all call (h ∷ hs) s =
      let (s', outcome) = call h.callback s in
      elim outcome [ ok _ ↦ call_all call hs s' | raise err ↦ (s', raise err) ]

  unfoldable pub do_action :
      (C → S → S × Result E (Unit {0})) → HookRegistry C → String → S → S × Result E (Unit {0})
  unfolding call_all
  do_action call r hook_name s = call_all call (handlers_of r.actions hook_name) s

module _ {C S E V : Type 0} where
  -- `value = await handler.call(value, ...)` for each handler, in order
  unfoldable pub pass_through :
      (C → V → S → S × Result E V) → List (HookHandler C) → V → S → S × Result E V
  pass_through call [] value s = (s, ok value)
  pass_through call (h ∷ hs) value s =
      let (s', outcome) = call h.callback value s in
      elim outcome [ ok value' ↦ pass_through call hs value' s' | raise err ↦ (s', raise err) ]

  unfoldable pub apply_filters :
      (C → V → S → S × Result E V) → HookRegistry C → String → V → S → S × Result E V
  unfolding pass_through
  apply_filters call r hook_name value s =
      pass_through call (handlers_of r.filters hook_name) value s
