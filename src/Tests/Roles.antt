-- ===== src/Tests/Roles.antt =====
-- The theorems on roles and role definitions at concrete data.
use myota_platform.Base.{
  refl, true, false, none, some, arith, ◌∷◌, [], List, ◌≡◌, find_row, update_row,
}
use myota_platform.Identity.Store.{Role, IdentityStore, RoleDefinition}
use myota_platform.Identity.LastGlobal.{HasGlobal, global_operator_stays}
use myota_platform.Identity.Requests.{
  after_requests, IdentityRequest, administer, give_role, define, after_request,
}
use myota_platform.Identity.Grants.{grants_known}
use myota_platform.Json.{
  null, text, field, array, nil, end, cons, get_value, has_key, get_or, iterated,
}
use myota_platform.Tests.Platform.{sample_store, sample_platform, inside}
use myota_platform.Identity.Roles.{role_definition}
use myota_platform.Identity.Permissions.{definitions_stay_limited}
use myota_platform.Identity.Administration.{create_admin_role, assign_role}
use myota_platform.Base.Effect.{◌>>=◌}
use myota_platform.Base.Effect.{lift, pure, state, modify}
use myota_platform.Base.Text.{strip}
use myota_platform.Identity.Accounts.{update_admin_account, asked_roles}
use myota_platform.Base.Sort.{sort}

-- the role of the only global operator
abbrev global_role : Role
global_role = record {
  id = "r1";
  account_id = "a1";
  role = "GLOBAL_OPERATOR";
  programme_slug = none;
  jurisdiction = null;
  entity_type = null;
  scopes = "*" ∷ [];
  created_at = 1;
  valid_to = none;
}

abbrev operated : IdentityStore
operated = record sample_store { roles = global_role ∷ [] }

-- a new administrator, the loss of the first one's role, and a definition
abbrev role_calls : List IdentityRequest
role_calls =
    administer 100 inside "salt" (λ n. "r2") "a1" (field "roleCodes" (array nil) end)
    ∷ give_role 200 inside "r3" "a1" (field "role" (text "AUDITOR") end)
    ∷ define 300 inside (
        field "code" (text "FIELD OPS") (
          field "name" (text "Field")
            (field "scopes" (array (cons (text "geodata.review") nil)) end)))
    ∷ []

operated-HasGlobal : HasGlobal operated.accounts operated.roles operated.role_definitions
operated-HasGlobal = ((λ k. ground arith), refl)

global_operator_stays_example :
    let later = after_requests sample_platform operated role_calls in
    HasGlobal later.accounts later.roles later.role_definitions
global_operator_stays_example =
    global_operator_stays sample_platform role_calls operated operated-HasGlobal

abbrev field_role : RoleDefinition
field_role = record {
  name = "Field";
  description = text "";
  scopes = "geodata.review" ∷ [];
  system = false;
}

field_role_found :
    role_definition sample_platform "FIELD_OPS" (after_requests sample_platform operated role_calls)
    ≡ some field_role
unfolding after_requests role_definition after_request create_admin_role ◌>>=◌ lift pure get_value
    state strip assign_role update_admin_account find_row has_key modify asked_roles update_row
    get_or sort iterated
field_role_found = refl

definitions_stay_limited_example : grants_known field_role ≡ true
definitions_stay_limited_example =
    definitions_stay_limited sample_platform role_calls operated "FIELD_OPS" field_role (λ k. refl)
      field_role_found refl
