-- ===== src/Guards.antt =====
-- skrift/auth/guards.py: requirements of routes, the scope of API keys, and the guard that checks
-- who calls. A set is a list of which only membership is read. The database, the check of a
-- key and that of a JWT are parameters.

pub mod Requirements
pub mod KeyScope
pub mod Access
mod Tests
use skrift.Prelude.{contains}
use skrift.Prelude.Text.{starts_with}
use skrift.Prelude.{
  ℕ, zero, suc, ◌+◌, ◌-◌, ◌*◌, ◌/◌, ◌%◌, ◌≤◌, ◌<◌, min, max, String, ◌≡◌, refl, sym, ap, ◌∙◌, ◌≢◌,
  ◌↔◌, ◌⊎◌, inl, inr, Bool, true, false, not, ◌&&◌, ◌||◌, Option, none, some, List, [], ◌∷◌, ◌++◌,
  map, arith, BEq, ◌==◌, ==_iff, ==_refl, ℕ_beq, string_beq, ltb, leb, eqb, if◌then◌else◌, tests,
  ltb→lt, lt→ltb, ltb→le, leb→le, le→leb, leb→lt, Bool-cases, Option-cases, List-cases, is_some,
  or_else, option_eq, option_eq_iff, Result, ok, raise, ◌>>=◌, ◌>>◌, is_ok, length, get_elem?, take,
  drop, filter, head?, get_last?, any, all, All, length-append, length-take, length-drop,
  length-filter-le, filter-append, All-append, reverse, reverse-append, drop-append, reverse-split,
  All-reverse, take-append-drop, if_rule, Result-cases, ok-injective,
}
use skrift.Prelude.Dict
use skrift.Prelude.Dict.{Dict}
use skrift.Prelude.Text.{Text, text_beq, codes, strip, is_blank}

-- skrift/auth/services.py
pub record UserPermissions : Type 0 where
  pub user_id : Text
  pub roles : List String
  pub permissions : List String

pub data AuthRequirement : Type 0 where
  or_requirement and_requirement : AuthRequirement → AuthRequirement → AuthRequirement
  permission role : String → AuthRequirement
  owner_or_permission : String → String → AuthRequirement
  api_key_auth api_key_only : AuthRequirement
  bearer_jwt_auth bearer_jwt_only : Text → List Text → AuthRequirement

-- What a route lists as guards: requirements, and other functions such as `auth_guard`.
pub data Guard : Type 0 where
  requirement : AuthRequirement → Guard
  function : Guard

pub data AuthError : Type 0 where
  authentication_required missing_bearer insufficient_permissions invalid_token insufficient_scope :
      AuthError

pub record ApiKey : Type 0 where
  pub user_id : Text
  pub scoped_permission_list : List String
  pub scoped_role_list : List String

abbrev pub administrator_permission : String
administrator_permission = "administrator"

unfoldable pub check : AuthRequirement → UserPermissions → Bool
check (or_requirement left right) p =
    let l = check left p in let r = check right p in if l then true else r
check (and_requirement left right) p =
    let l = check left p in let r = check right p in if l then r else false
check (permission s) p =
    if contains p.permissions administrator_permission then true else contains p.permissions s
check (owner_or_permission own any_permission) p =
    if contains p.permissions administrator_permission
    then true
    else contains p.permissions any_permission || contains p.permissions own
check (role s) p =
    if contains p.permissions administrator_permission then true else contains p.roles s
check api_key_auth p = true
check api_key_only p = true
check (bearer_jwt_auth audience scopes) p = true
check (bearer_jwt_only audience scopes) p = true

-- The permissions of the scoped roles that the user has.
unfoldable pub permissions_of_roles : Dict String (List String) → List String → List String
permissions_of_roles role_definitions [] = []
permissions_of_roles role_definitions (name ∷ names) =
    or_else (Dict.get role_definitions name) [] ++ permissions_of_roles role_definitions names

-- `not key_permissions and not key_roles`
abbrev pub is_unscoped : ApiKey → Bool
is_unscoped key = eqb (length key.scoped_permission_list) 0 && eqb (length key.scoped_role_list) 0

-- `scoped`, before it is intersected with the user's permissions
abbrev pub scoped_of : Dict String (List String) → ApiKey → UserPermissions → List String
scoped_of role_definitions key user =
    permissions_of_roles role_definitions (filter (contains user.roles) key.scoped_role_list)
    ++ key.scoped_permission_list

abbrev pub restricted : Dict String (List String) → ApiKey → UserPermissions → UserPermissions
restricted role_definitions key user = record {
  user_id = key.user_id;
  roles = filter (contains user.roles) key.scoped_role_list;
  permissions = filter (contains user.permissions) (scoped_of role_definitions key user);
}

-- What a key leaves of its user's permissions and roles.
unfoldable pub scope_permissions :
    Dict String (List String) → ApiKey → UserPermissions → UserPermissions
unfolding permissions_of_roles
scope_permissions role_definitions key user =
    if is_unscoped key then user else restricted role_definitions key user

abbrev pub count_dots : Text → ℕ
count_dots [] = 0
count_dots (c ∷ s) = let n = count_dots s in if eqb c 46 then suc n else n

-- `authorization` is the header's value, empty if it is missing.
unfoldable pub extract_bearer_token : Text → Option Text
extract_bearer_token authorization =
    if starts_with (codes "Bearer ") authorization
    then some (strip (drop 7 authorization))
    else none

-- skrift/auth/bearer.py
unfoldable pub is_jwt_shaped : Text → Bool
is_jwt_shaped token = not (starts_with (codes "sk_") token) && eqb (count_dots token) 2

abbrev pub is_api_key_only : Guard → Bool
is_api_key_only (requirement api_key_only) = true
is_api_key_only _ = false

abbrev pub is_api_key_auth : Guard → Bool
is_api_key_auth (requirement api_key_auth) = true
is_api_key_auth _ = false

-- The first guard that is a JWT marker: its audience, its scopes, and whether it is the only way.
abbrev pub jwt_marker : List Guard → Option (Text × List Text × Bool)
jwt_marker [] = none
jwt_marker (requirement (bearer_jwt_auth audience scopes) ∷ guards) = some (audience, scopes, false)
jwt_marker (requirement (bearer_jwt_only audience scopes) ∷ guards) = some (audience, scopes, true)
jwt_marker (_ ∷ guards) = jwt_marker guards

-- The guards that are requirements and no markers.
abbrev pub auth_requirements : List Guard → List AuthRequirement
auth_requirements [] = []
auth_requirements (function ∷ guards) = auth_requirements guards
auth_requirements (requirement api_key_auth ∷ guards) = auth_requirements guards
auth_requirements (requirement api_key_only ∷ guards) = auth_requirements guards
auth_requirements (requirement (bearer_jwt_auth audience scopes) ∷ guards) =
    auth_requirements guards
auth_requirements (requirement (bearer_jwt_only audience scopes) ∷ guards) =
    auth_requirements guards
auth_requirements (requirement r ∷ guards) = r ∷ auth_requirements guards

-- What is read of the connection: the header, and the user of the session.
pub record Connection : Type 0 where
  pub authorization : Text
  pub session_user_id : Option Text

-- What the guard asks of the database and of the other modules.
pub record Backend : Type 0 where
  pub role_definitions : Dict String (List String)
  pub verify_api_key : Text → Option ApiKey
  pub get_user_permissions : Text → UserPermissions
  pub resolve_bearer_jwt_permissions :
      Text → Text → List Text → Result AuthError (Text × UserPermissions)

-- A user id counts if it is there and not empty.
abbrev pub known : Option (Text × UserPermissions) → Bool
known none = false
known (some (user_id, permissions)) = not (is_blank user_id)

abbrev pub by_session : Backend → Option Text → Option (Text × UserPermissions)
by_session backend none = none
by_session backend (some user_id) =
    if is_blank user_id then none else some (user_id, backend.get_user_permissions user_id)

unfoldable pub resolve_api_key_permissions : Backend → Text → Option (Text × UserPermissions)
unfolding scope_permissions
resolve_api_key_permissions backend bearer = elim (backend.verify_api_key bearer) [
  | none ↦ none
  | some key ↦ some (
    key.user_id,
    scope_permissions backend.role_definitions key (backend.get_user_permissions key.user_id),
  )
]

-- API-key authentication, for a bearer that starts with `sk_`.
unfoldable pub by_api_key : Backend → Option Text → Option (Text × UserPermissions)
unfolding resolve_api_key_permissions
by_api_key backend none = none
by_api_key backend (some bearer) =
    if starts_with (codes "sk_") bearer then resolve_api_key_permissions backend bearer else none

-- JWT authentication, where no API key was accepted.
unfoldable pub by_jwt :
    Backend
    → Option Text
    → Option (Text × List Text × Bool)
    → Result AuthError (Option (Text × UserPermissions))
unfolding is_jwt_shaped
by_jwt backend none marker = ok none
by_jwt backend (some bearer) none = ok none
by_jwt backend (some bearer) (some (audience, scopes, only)) =
    if is_jwt_shaped bearer
    then backend.resolve_bearer_jwt_permissions bearer audience scopes >>= (λ who. ok (some who))
    else ok none

abbrev pub is_jwt_only : Option (Text × List Text × Bool) → Bool
is_jwt_only none = false
is_jwt_only (some (audience, scopes, only)) = only

abbrev pub bearer_of : List Guard → Connection → Option Text
bearer_of guards connection =
    if any is_api_key_only guards || any is_api_key_auth guards || is_some (jwt_marker guards)
    then extract_bearer_token connection.authorization
    else none

-- The user of an API key, on a route that takes one.
unfoldable pub key_holder : Backend → List Guard → Option Text → Option (Text × UserPermissions)
unfolding by_api_key
key_holder backend guards bearer =
    if any is_api_key_only guards || any is_api_key_auth guards
    then by_api_key backend bearer
    else none

-- Who a bearer token stands for, on a route that takes one.
unfoldable pub by_bearer :
    Backend → List Guard → Connection → Result AuthError (Option (Text × UserPermissions))
unfolding key_holder by_jwt extract_bearer_token
by_bearer backend guards connection =
    let bearer = bearer_of guards connection in
    let who = key_holder backend guards bearer in
    if is_some who then ok who else by_jwt backend bearer (jwt_marker guards)

-- The session, unless a bearer counted or the route takes bearers only.
unfoldable pub or_session :
    Backend
    → List Guard
    → Connection
    → Option (Text × UserPermissions)
    → Option (Text × UserPermissions)
or_session backend guards connection who =
    if known who
    then who
    else if any is_api_key_only guards || is_jwt_only (jwt_marker guards)
    then none
    else by_session backend connection.session_user_id

abbrev pub check_all : List AuthRequirement → UserPermissions → Result AuthError (Unit {0})
check_all [] p = ok tt
check_all (r ∷ rs) p =
    let rest = check_all rs p in if check r p then rest else raise insufficient_permissions

abbrev pub authorize : List Guard → Option (Text × UserPermissions) → Result AuthError (Unit {0})
authorize guards none =
    raise (if is_some (jwt_marker guards) then missing_bearer else authentication_required)
authorize guards (some (user_id, permissions)) = check_all (auth_requirements guards) permissions

unfoldable pub auth_guard : Backend → List Guard → Connection → Result AuthError (Unit {0})
unfolding by_bearer or_session check
auth_guard backend guards connection =
    by_bearer backend guards connection
    >>= (λ who. authorize guards (or_session backend guards connection who))
