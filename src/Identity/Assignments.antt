-- ===== src/Identity/Assignments.antt =====
-- services/identity.py: _replace_roles. The identifiers of the new roles are an argument, by their place.
use myota_platform.Base.{
  true, none, some, ◌∷◌, [], String, Option, ℕ, List, Bool, member, update_where, count_where, any,
  ◌+◌, str_eq, ◌&&◌, if◌then◌else◌, not, ◌||◌,
}
use myota_platform.Base.Raise.{ok, Result, or_raise, ◌>>=◌, guard, ◌>>◌}
use myota_platform.Identity.Roles.{roles_of, Platform, role_definition, is_valid}
use myota_platform.Json.{Json, Fields, text, get_value, truthy}
use myota_platform.Identity.Store.{Role, IdentityStore}
use myota_platform.Identity.Sessions.{is_global_operator}
use myota_platform.Awards.Design.{ServiceError, value_error, permission_error}
use myota_platform.Identity.Auth.{granted}
use myota_platform.Outbox.Routing.{as_text}
use myota_platform.Common.Token.{as_claims}

-- a role that is to be assigned
pub record Assignment : Type 0 where
  pub code : String
  pub programme_slug : Option String
  pub jurisdiction : Json
  pub entity_type : Json

abbrev pub is_superuser : Option Fields → Bool
is_superuser none = true
is_superuser (some claims) = member "*" (granted claims)

-- the roles of the account that are valid end now
unfoldable pub end_roles : ℕ → String → List Role → List Role
end_roles now account_id roles =
    update_where (λ r. str_eq r.account_id account_id && is_valid r)
      (λ r. record r { valid_to = some now }) roles

-- the accounts that have the role of a global operator
unfoldable pub global_count : IdentityStore → ℕ
unfolding roles_of
global_count store = count_where (λ a. is_global_operator store a.id) store.accounts

abbrev pub assigns_global : List Assignment → Bool
assigns_global as_ = any (λ a. str_eq a.code "GLOBAL_OPERATOR") as_

module _ (py : Platform) where
  -- str(v)
  abbrev pub text_of : Json → String
  text_of (text s) = s
  text_of v = py.shown v

  -- str(assignment.get("code") or assignment.get("role") or "").upper()
  abbrev pub code_of : Fields → String
  code_of d =
      let code = get_value "code" d in
      let role = get_value "role" d in
      py.upper (text_of (if truthy code then code else if truthy role then role else text ""))

  -- the loop over the assignments
  unfoldable pub normalized :
      Option Fields → IdentityStore → List Json → Result ServiceError (List Assignment)
  unfolding role_definition as_claims
  normalized claims store [] = ok []
  normalized claims store (v ∷ ds) =
      let rest = normalized claims store ds in
      as_claims v >>= λ d.
      let code = code_of d in
      or_raise (role_definition py code store) value_error >>= λ definition.
      guard (not (str_eq code "GLOBAL_OPERATOR") || is_superuser claims) permission_error
      >> (rest >>= λ as_. ok (
          record {
            code = code;
            programme_slug = as_text (get_value "programmeSlug" d);
            jurisdiction = get_value "jurisdiction" d;
            entity_type = get_value "entityType" d;
          }
          ∷ as_))

  unfoldable pub new_roles :
      ℕ → (ℕ → String) → ℕ → String → IdentityStore → List Assignment → List Role
  unfolding role_definition
  new_roles now new_id n account_id store [] = []
  new_roles now new_id n account_id store (a ∷ as_) =
      record {
        id = new_id n;
        account_id = account_id;
        role = a.code;
        programme_slug = a.programme_slug;
        jurisdiction = a.jurisdiction;
        entity_type = a.entity_type;
        scopes = elim (role_definition py a.code store) [ none ↦ [] | some d ↦ d.scopes ];
        created_at = now;
        valid_to = none;
      }
      ∷ new_roles now new_id (n + 1) account_id store as_
