-- ===== src/Guards/Tests.antt =====
-- A route with an API key, and the theorems about guards at it.
use skrift.Prelude.{contains}
use skrift.Prelude.{
  ◌+◌, ◌<◌, String, ◌≡◌, refl, ◌⊎◌, true, none, some, List, [], ◌∷◌, arith, ℕ_beq, string_beq,
  raise, length, filter, All,
}
use skrift.Prelude.Dict
use skrift.Prelude.Text.{Text, codes}
use skrift.Guards.{
  UserPermissions, AuthRequirement, permission, or_requirement, role, api_key_auth, Guard,
  requirement, function, invalid_token, ApiKey, Backend, Connection, check, scope_permissions,
  auth_requirements, auth_guard,
}
use skrift.Guards.Requirements.{check_monotone}
use skrift.Guards.KeyScope.{FromRole, scope_permissions-no_escalation}
use skrift.Guards.Access.{IsIdentity, auth_guard_sound}

abbrev editor : UserPermissions
editor = record {
  user_id = codes "u1";
  roles = "editor" ∷ [];
  permissions = "manage-pages" ∷ "view-drafts" ∷ [];
}

abbrev key : ApiKey
key = record {
  user_id = codes "u1";
  scoped_permission_list = "view-drafts" ∷ "manage-users" ∷ [];
  scoped_role_list = [];
}

abbrev backend : Backend
backend = record {
  role_definitions = ("editor", "manage-pages" ∷ []) ∷ [];
  verify_api_key = λ bearer. some key;
  get_user_permissions = λ user_id. editor;
  resolve_bearer_jwt_permissions = λ token audience scopes. raise invalid_token;
}

abbrev guards : List Guard
guards = function ∷ requirement api_key_auth ∷ requirement (permission "view-drafts") ∷ []

abbrev connection : Connection
connection = record { authorization = codes "Bearer sk_1"; session_user_id = none }

program : Unit {0}
unfolding auth_guard scope_permissions check Dict.get
program = tt

scope_permissions_test :
    (scope_permissions backend.role_definitions key editor).permissions ≡ "view-drafts" ∷ []
unfolding program
scope_permissions_test = refl

scope_permissions-no_escalation_example :
    ((r : AuthRequirement)
      → check r (scope_permissions backend.role_definitions key editor) ≡ true
      → check r editor ≡ true)
    × (0 < length key.scoped_permission_list + length key.scoped_role_list
        → (s : String)
        → contains (scope_permissions backend.role_definitions key editor).permissions s ≡ true
        → (contains key.scoped_permission_list s ≡ true)
          ⊎ FromRole backend.role_definitions
              (filter (contains editor.roles) key.scoped_role_list)
              s)
scope_permissions-no_escalation_example =
    scope_permissions-no_escalation backend.role_definitions key editor

auth_guard_sound_example :
    (user_id : Text) × (permissions : UserPermissions) × IsIdentity backend guards connection
      user_id permissions
    × All (λ r. check r permissions ≡ true) (auth_requirements guards)
unfolding program
auth_guard_sound_example = auth_guard_sound backend guards connection refl

check_monotone_example :
    check (or_requirement (role "admin") (permission "view-drafts")) editor ≡ true
unfolding program
check_monotone_example =
    check_monotone (scope_permissions backend.role_definitions key editor) editor
      (or_requirement (role "admin") (permission "view-drafts"))
      (record { permissions = λ s h. ground (arith, h); roles = λ s h. ground (arith, h) }) refl
