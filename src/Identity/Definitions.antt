-- ===== src/Identity/Definitions.antt =====
-- services/identity.py: the permissions and the built-in role definitions, and _role_definitions.
use myota_platform.Base.{
  true, none, some, ◌∷◌, [], List, String, Option, keep, if◌then◌else◌, not, str_eq,
}
use myota_platform.Identity.Store.{RoleDefinition}
use myota_platform.Json.{text}

-- ADMIN_PERMISSION_CODES
abbrev pub admin_permission_codes : List String
admin_permission_codes =
    "observability.view" ∷ "identity.admin" ∷ "identity.roles.assign" ∷ "identity.roles.manage"
    ∷ "identity.audit.read" ∷ "callsign.verify" ∷ "programme.admin" ∷ "programme.policy.manage"
    ∷ "programme.content.manage" ∷ "geodata.review" ∷ "geodata.import" ∷ "geodata.geometry.manage"
    ∷ "geodata.delete" ∷ "activity.read" ∷ "activity.admin" ∷ "audit.read"
    ∷ "identity.service.issue" ∷ "identity.oidc.configure" ∷ []

abbrev system_role : String → String → List String → RoleDefinition
system_role name description scopes = record {
  name = name;
  description = text description;
  scopes = scopes;
  system = true;
}

-- DEFAULT_ROLE_DEFINITIONS under their codes
abbrev pub default_role_definitions : List (String × RoleDefinition)
default_role_definitions =
    (
      "GLOBAL_OPERATOR",
      system_role "Global administrator" "Full platform administration, including role management."
          ("*" ∷ []),
    )
    ∷ (
      "IDENTITY_ADMIN",
      system_role "Identity administrator" "Manage users, callsigns and role assignments." (
          "identity.admin" ∷ "identity.roles.assign" ∷ "identity.audit.read" ∷ "callsign.verify"
          ∷ []),
    )
    ∷ (
      "GIS_ADMIN",
      system_role "GIS administrator" "Review, import, edit and remove rejected geodata."
          ("geodata.review" ∷ "geodata.import" ∷ "geodata.geometry.manage" ∷ "geodata.delete" ∷ []),
    )
    ∷ (
      "GEO_APPROVER",
      system_role "Geodata approver" "Review scoped geodata proposals." ("geodata.review" ∷ []),
    )
    ∷ (
      "PROGRAMME_ADMIN",
      system_role "Programme administrator" "Manage programme configuration and published content."
          ("programme.admin" ∷ "programme.policy.manage" ∷ "programme.content.manage" ∷ []),
    )
    ∷ (
      "ACTIVITY_ADMIN",
      system_role "Activity administrator"
          "Manage activations, QSOs, awards and execution operations."
          ("activity.read" ∷ "activity.admin" ∷ []),
    )
    ∷ (
      "AUDITOR",
      system_role "Auditor" "Read platform audit and security records."
          ("audit.read" ∷ "identity.audit.read" ∷ []),
    )
    ∷ []

unfoldable pub template_of : String → List (String × RoleDefinition) → Option RoleDefinition
template_of code [] = none
template_of code ((c, d) ∷ ds) = if str_eq c code then some d else template_of code ds

-- the retired permission is taken out
unfoldable pub without_retired : RoleDefinition → RoleDefinition
without_retired d = record d { scopes = keep (λ s. not (str_eq s "operations.read")) d.scopes }

-- _role_definitions
unfoldable pub with_defaults : (String → Option RoleDefinition) → String → Option RoleDefinition
unfolding template_of without_retired
with_defaults definitions code = elim (definitions code) [
  | some d ↦ some (without_retired d)
  | none ↦ elim (template_of code default_role_definitions) [
    | none ↦ none
    | some d ↦ some (without_retired d)
  ]
]
