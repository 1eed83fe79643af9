-- ===== src/Hooks/Tests.antt =====
-- A registry with callbacks, and the theorems about hooks at it.
use skrift.Prelude.{
  ℕ, suc, String, ◌≡◌, refl, Bool, true, List, [], ◌∷◌, ◌++◌, map, ◌==◌, ℕ_beq, string_beq,
  if◌then◌else◌, Result, ok, raise,
}
use skrift.Prelude.Int.{ℤ, pos, negsuc}
use skrift.Prelude.Dict
use skrift.Hooks.{
  HookRegistry, handlers_of, new, add_action, add_filter, remove_action, apply_filters,
}
use skrift.Hooks.Order.{IsSorted, of_priority, handler, register_all, register_all-order}

abbrev regs : List (ℤ × String)
regs = (pos 10, "log") ∷ (negsuc 4, "first") ∷ (pos 10, "mail") ∷ []

abbrev registry : HookRegistry String
registry = register_all new "saved" regs

-- A callback appends its name to the value; the state counts the calls.
abbrev call : String → List String → ℕ → ℕ × Result Bool (List String)
call name value n = (suc n, (if name == "fail" then raise true else ok (value ++ name ∷ [])))

abbrev filters : HookRegistry String
filters = add_filter (add_filter new "title" "late" (pos 20)) "title" "early" (pos 3)

program : Unit {0}
unfolding register_all add_action add_filter remove_action apply_filters
program = tt

order_test :
    map (λ h. h.callback) (handlers_of registry.actions "saved") ≡ "first" ∷ "log" ∷ "mail" ∷ []
unfolding program Dict.get Dict.put
order_test = refl

apply_filters_test : apply_filters call filters "title" [] 0 ≡ (2, ok ("early" ∷ "late" ∷ []))
unfolding program Dict.get Dict.put
apply_filters_test = refl

register_all-order_example :
    IsSorted (handlers_of (register_all {C = String} new "saved" regs).actions "saved")
    × ((p : ℤ)
        → of_priority p (handlers_of (register_all {C = String} new "saved" regs).actions "saved")
          ≡ of_priority p (handlers_of {C = String} new.actions "saved")
            ++ of_priority p (map handler regs))
unfolding Dict.get
register_all-order_example = register_all-order new "saved" regs tt
