-- ===== src/Guards/Requirements.antt =====
-- More permissions and roles satisfy no fewer requirements.
use skrift.Prelude.{contains}
use skrift.Prelude.{String, ◌≡◌, refl, true, arith, ℕ_beq, string_beq}
use skrift.Guards.{
  UserPermissions, AuthRequirement, or_requirement, and_requirement, permission, role,
  owner_or_permission, api_key_auth, api_key_only, bearer_jwt_auth, bearer_jwt_only, contains,
  check, administrator_permission,
}

-- What the first may do, the second may do.
pub record IsWithin (p q : UserPermissions) : Type 0 where
  pub permissions : (s : String) → contains p.permissions s ≡ true → contains q.permissions s ≡ true
  pub roles : (s : String) → contains p.roles s ≡ true → contains q.roles s ≡ true

pub check_monotone :
    (p q : UserPermissions) (r : AuthRequirement)
    → IsWithin p q
    → check r p ≡ true
    → check r q ≡ true
unfolding check
check_monotone p q (or_requirement left right) w h =
    ground (arith, h, check_monotone p q left w, check_monotone p q right w)
check_monotone p q (and_requirement left right) w h =
    ground (arith, h, check_monotone p q left w, check_monotone p q right w)
check_monotone p q (permission s) w h =
    ground (arith, h, w.permissions s, w.permissions administrator_permission)
check_monotone p q (owner_or_permission own any_permission) w h = ground (
  arith,
  h,
  w.permissions own,
  w.permissions any_permission,
  w.permissions administrator_permission,
)
check_monotone p q (role s) w h =
    ground (arith, h, w.roles s, w.permissions administrator_permission)
check_monotone p q api_key_auth w h = refl
check_monotone p q api_key_only w h = refl
check_monotone p q (bearer_jwt_auth audience scopes) w h = refl
check_monotone p q (bearer_jwt_only audience scopes) w h = refl
