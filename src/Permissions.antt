-- ===== src/Permissions.antt =====
-- skrift/auth/permissions.py: permission definitions, and the clearance that a set of permissions
-- asks of a service. The title made from a slug for display is a parameter.
pub mod Clearance
mod Tests
use skrift.Prelude.{
  ℕ, String, Option, none, some, List, [], ◌∷◌, ◌==◌, ℕ_beq, string_beq, ltb, eqb, if◌then◌else◌,
}
use skrift.Prelude.Dict
use skrift.Prelude.Dict.{Dict}

pub data PermissionClearance : Type 0 where
  disallow_api_grants allow_anonymous_service require_known_service require_elevated_security :
      PermissionClearance

abbrev pub clearance_rank : PermissionClearance → ℕ
clearance_rank disallow_api_grants = 0
clearance_rank allow_anonymous_service = 1
clearance_rank require_known_service = 2
clearance_rank require_elevated_security = 3

pub record PermissionDefinition : Type 0 where
  pub slug : String
  pub display_name : String
  pub description : String
  pub service_clearance : PermissionClearance

-- `PERMISSION_DEFINITIONS`
abbrev pub Registry : Type 0
Registry = Dict String PermissionDefinition

-- `display_name or _humanize_permission(slug)`, where an empty name counts as none
abbrev pub display_of : (String → String) → String → Option String → String
display_of humanize slug none = humanize slug
display_of humanize slug (some name) = if name == "" then humanize slug else name

module _ (humanize_permission : String → String) where
  unfoldable pub register_permission :
      Registry
      → String
      → Option String
      → String
      → PermissionClearance
      → Registry × PermissionDefinition
  register_permission registry slug display_name description service_clearance =
      let definition : PermissionDefinition = record {
        slug = slug;
        display_name = display_of humanize_permission slug display_name;
        description = description;
        service_clearance = service_clearance;
      } in
      (Dict.put registry slug definition, definition)

  unfoldable pub ensure_permission :
      Registry
      → String
      → Option String
      → String
      → PermissionClearance
      → Registry × PermissionDefinition
  unfolding register_permission
  ensure_permission registry slug display_name description service_clearance =
      elim (Dict.get registry slug) [
        | some existing ↦ (registry, existing)
        | none ↦ register_permission registry slug display_name description service_clearance
      ]

  unfoldable pub get_permission_definition : Registry → String → Registry × PermissionDefinition
  unfolding ensure_permission
  get_permission_definition registry slug =
      ensure_permission registry slug none "" disallow_api_grants

  -- The loop of `strictest_clearance`, with the strictest clearance so far.
  unfoldable pub strictest_from :
      PermissionClearance → List String → Registry → Registry × PermissionClearance
  unfolding get_permission_definition
  strictest_from strictest [] registry = (registry, strictest)
  strictest_from strictest (slug ∷ permissions) registry =
      let (registry', definition) = get_permission_definition registry slug in
      let stricter = strictest_from definition.service_clearance permissions registry' in
      let same = strictest_from strictest permissions registry' in
      if eqb (clearance_rank definition.service_clearance) 0
      then (registry', disallow_api_grants)
      else if ltb (clearance_rank strictest) (clearance_rank definition.service_clearance)
      then stricter
      else same

  unfoldable pub strictest_clearance : Registry → List String → Registry × PermissionClearance
  unfolding strictest_from
  strictest_clearance registry permissions =
      strictest_from allow_anonymous_service permissions registry
