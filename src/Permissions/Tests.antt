-- ===== src/Permissions/Tests.antt =====
-- A registry with two permissions, and the theorem about clearance at it.
use skrift.Prelude.{String, ◌≡◌, refl, none, [], ◌∷◌, ℕ_beq, string_beq}
use skrift.Prelude.Dict
use skrift.Permissions.{
  disallow_api_grants, allow_anonymous_service, require_known_service, Registry,
  register_permission, strictest_clearance,
}
use skrift.Permissions.Clearance.{IsStrictest, strictest_clearance-IsStrictest}

abbrev humanize_permission : String → String
humanize_permission slug = slug

abbrev registry : Registry
registry =
    (register_permission humanize_permission
      (register_permission humanize_permission [] "read" none "" allow_anonymous_service).0 "write"
      none "" require_known_service).0

program : Unit {0}
unfolding strictest_clearance register_permission Dict.get Dict.put
program = tt

strictest_clearance_test :
    (strictest_clearance humanize_permission registry ("write" ∷ "read" ∷ [])).1
    ≡ require_known_service
unfolding program
strictest_clearance_test = refl

strictest_clearance_unknown_test :
    (strictest_clearance humanize_permission registry ("write" ∷ "erase" ∷ [])).1
    ≡ disallow_api_grants
unfolding program
strictest_clearance_unknown_test = refl

strictest_clearance-IsStrictest_example :
    IsStrictest humanize_permission registry allow_anonymous_service
      ("write" ∷ "erase" ∷ [])
      (strictest_clearance humanize_permission registry ("write" ∷ "erase" ∷ [])).1
strictest_clearance-IsStrictest_example =
    strictest_clearance-IsStrictest humanize_permission registry ("write" ∷ "erase" ∷ [])
