-- ===== src/Identity/Administration.antt =====
-- services/identity.py: role definitions, assign_role, issue_service_token and deactivate_account.
use myota_platform.Base.{
  true, false, none, some, ◌∷◌, [], String, Option, Bool, List, ℕ, member, ◌++◌, if◌then◌else◌, all,
  ◌/◌, not, ◌+◌, str_eq, ◌||◌,
}
use myota_platform.Base.Raise.{ok, err, Result, or_raise}
use myota_platform.Json.{
  Json, text, Fields, field, nil, array, has_key, get_value, number, truthy, get_or, end, boolean,
  real, is_null, iterated,
}
use myota_platform.Identity.Roles.{sorted_set, Platform, role_definition}
use myota_platform.Identity.Store.{
  Role, RoleDefinition, IdentityStore, audit, assign, Handler, account, put_account, Account,
}
use myota_platform.Identity.Auth.{admin_authorize, auth, RequestContext}
use myota_platform.Outbox.Routing.{as_text}
use myota_platform.Awards.Design.{
  ServiceError, type_error, value_error, key_error, permission_error,
}
use myota_platform.Identity.RoleCode.{role_code}
use myota_platform.Common.Token.{sign_token}
use myota_platform.Identity.Definitions.{admin_permission_codes, with_defaults}
use myota_platform.Base.Effect.{◌>>=◌, ◌>>◌, lift, state, modify, check, pure}
use myota_platform.Base.Text.{concat, strip, is_empty}
use myota_platform.Identity.Passwords.{revoke_all}
use myota_platform.Identity.Accounts.{anonymous}
use myota_platform.Identity.Assignments.{text_of, is_superuser}
use myota_platform.Awards.Lifecycle.{require}

abbrev pub is_permission : String → Bool
is_permission s = member s admin_permission_codes

-- the values of a list if they are texts, or none
unfoldable pub all_texts : List Json → Option (List String)
all_texts [] = some []
all_texts (text s ∷ vs) = elim (all_texts vs) [ none ↦ none | some ss ↦ some (s ∷ ss) ]
all_texts (_ ∷ vs) = none

abbrev pub is_numeric : Json → Bool
is_numeric (boolean b) = true
is_numeric (number n) = true
is_numeric (real s) = true
is_numeric _ = false

-- sorted(set(vs)) of values that are not all texts: it raises TypeError but for numbers, and for None alone
abbrev pub is_sortable : List Json → Bool
is_sortable vs = all is_numeric vs || all is_null vs

-- sorted(set(scopes)) with the check of its permissions, where no other value than a text is one
unfoldable pub checked_scopes : Json → Result ServiceError (List String)
unfolding all_texts sorted_set
checked_scopes v = elim (iterated v) [
  | none ↦ err type_error
  | some vs ↦ elim (all_texts vs) [
    | none ↦ err (if is_sortable vs then value_error else type_error)
    | some ss ↦ if all is_permission (sorted_set ss) then ok (sorted_set ss) else err value_error
  ]
]

unfoldable pub define_role : String → RoleDefinition → IdentityStore → IdentityStore
define_role code d store = record store { role_definitions = assign code d store.role_definitions }

unfoldable pub add_role : Role → IdentityStore → IdentityStore
add_role r store = record store { roles = store.roles ++ r ∷ [] }

abbrev pub is_some {ℓ} : {A : Type ℓ} → Option A → Bool
is_some none = false
is_some (some a) = true

module _ (py : Platform) where
  unfoldable pub create_admin_role : ℕ → RequestContext → Fields → Handler RoleDefinition
  unfolding admin_authorize role_code checked_scopes define_role with_defaults audit
  create_admin_role now p body = do
    admin_authorize py now p "identity.roles.manage"
    lift (require body ("code" ∷ "name" ∷ []))
    let code = role_code (py.upper (strip (text_of py (get_value "code" body))))
    store ← state
    check (not (is_empty code || is_some (with_defaults store.role_definitions code))) value_error
    scopes ← lift (checked_scopes (get_or "scopes" (array nil) body))
    let d : RoleDefinition = record {
      name = strip (text_of py (get_value "name" body));
      description = get_or "description" (text "") body;
      scopes = scopes;
      system = false;
    }
    modify (define_role code d)
    modify (audit now "identity.role-definition.created.v1" "system")
    pure d

  -- a definition with the name and the description of a body
  abbrev pub described : Fields → RoleDefinition → RoleDefinition
  described body d =
      let named =
        if has_key "name" body
        then record d { name = strip (text_of py (get_value "name" body)) }
        else d in
      if has_key "description" body
      then record named { description = get_value "description" body }
      else named

  -- update_admin_role after its checks: the name, the description and the scopes, one after the other
  unfoldable pub edit_role : ℕ → String → Fields → RoleDefinition → Handler RoleDefinition
  unfolding checked_scopes define_role audit
  edit_role now code body d = do
    lift (if has_key "name" body then require body ("name" ∷ []) else ok tt)
    let changed = described body d
    modify (define_role code changed)
    scopes ← lift (
        if has_key "scopes" body
        then checked_scopes (get_value "scopes" body)
        else ok changed.scopes)
    let edited = record changed { scopes = scopes }
    modify (define_role code edited)
    modify (audit now "identity.role-definition.updated.v1" "system")
    pure edited

  unfoldable pub update_admin_role : ℕ → RequestContext → String → Fields → Handler RoleDefinition
  unfolding admin_authorize role_definition edit_role
  update_admin_role now p role_code body = do
    admin_authorize py now p "identity.roles.manage"
    store ← state
    let code = py.upper role_code
    d ← lift (or_raise (role_definition py code store) key_error)
    check (not d.system) value_error
    edit_role now (py.upper code) body d

  unfoldable pub assign_role : ℕ → RequestContext → String → String → Fields → Handler Role
  unfolding auth role_definition add_role audit
  assign_role now p new_id account_id body = do
    lift (require body ("role" ∷ []))
    claims ← auth py now p ("identity.roles.assign" ∷ []) none
    let code = py.upper (text_of py (get_value "role" body))
    store ← state
    d ← lift (or_raise (role_definition py code store) value_error)
    check (not (str_eq code "GLOBAL_OPERATOR") || is_superuser claims) permission_error
    let r : Role = record {
      id = new_id;
      account_id = account_id;
      role = code;
      programme_slug = as_text (get_value "programmeSlug" body);
      jurisdiction = get_value "jurisdiction" body;
      entity_type = get_value "entityType" body;
      scopes = d.scopes;
      created_at = now;
      valid_to = none;
    }
    modify (add_role r)
    modify (audit now "identity.role.assigned.v1" account_id)
    pure r

  unfoldable pub service_claims : ℕ → String → Fields → Fields
  service_claims now jti body =
      field "sub" (text (concat "service:" (text_of py (get_value "service" body)))) (
        field "jti" (text jti) (
          field "scp" (get_value "scopes" body) (
            field "iat" (number (now / 1000000)) (
              field "exp" (number (now / 1000000 + 300))
                (field "tokenType" (text "service") end)))))

  unfoldable pub issue_service_token : ℕ → RequestContext → String → Fields → Handler String
  unfolding auth service_claims sign_token audit
  issue_service_token now p jti body = do
    lift (require body ("service" ∷ "scopes" ∷ []))
    auth py now p ("identity.service.issue" ∷ []) none
    let token = sign_token py.crypto (service_claims now jti body) "service"
    modify (audit now "identity.service-token.issued.v1" "system")
    pure token

  unfoldable pub deactivate_account : ℕ → RequestContext → String → Fields → Handler Account
  unfolding auth account put_account revoke_all audit
  deactivate_account now p account_id body = do
    auth py now p [] (some account_id)
    a ← account account_id
    let off = record a { status = text "DEACTIVATED" }
    let hidden = if truthy (get_or "anonymize" (boolean true) body) then anonymous py off else off
    let a1 = record hidden { updated_at = now }
    modify (put_account a1)
    modify (revoke_all now a.id)
    modify (audit now "identity.account.deactivated.v1" a.id)
    pure a1
