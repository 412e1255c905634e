-- ===== src/Identity/Roles.antt =====
-- services/identity.py: the roles of an account and its scopes. A record Platform stands for the settings
-- and for what the service takes from Python's texts and hashes.
use myota_platform.Base.{
  true, false, none, some, ◌∷◌, [], String, List, ℕ, Bool, keep, if◌then◌else◌, Option, str_eq,
  member, not, ◌&&◌, ◌++◌,
}
use myota_platform.Common.Token.{Crypto}
use myota_platform.Identity.Store.{Role, IdentityStore, RoleDefinition}
use myota_platform.Identity.Definitions.{with_defaults}
use myota_platform.Base.Sort.{sort}
use myota_platform.Base.Text.{is_empty, concat}
use myota_platform.Base.Order.{text_lt}
use myota_platform.Json.{Json}

pub record Platform : Type 0 where
  pub crypto : Crypto
  pub casefold : String → String
  pub lower : String → String
  pub upper : String → String
  -- str(v) of a value that is no text
  pub shown : Json → String
  -- a time as its text
  pub iso_of : ℕ → String
  -- hashlib.scrypt of a value and a salt
  pub scrypt : String → String → String
  pub access_seconds : ℕ
  pub refresh_seconds : ℕ
  pub recovery_seconds : ℕ
  pub max_login_attempts : ℕ
  pub login_window_seconds : ℕ
  pub security_event_retention_seconds : ℕ

-- not r.get("validTo")
abbrev pub is_valid : Role → Bool
is_valid r = elim r.valid_to [ none ↦ true | some t ↦ false ]

-- _roles
unfoldable pub roles_of : String → IdentityStore → List Role
roles_of account_id store = keep (λ r. str_eq r.account_id account_id && is_valid r) store.roles

abbrev pub is_global : Role → Bool
is_global r = str_eq r.role "GLOBAL_OPERATOR"

-- sorted(set(xs))
unfoldable pub distinct : List String → List String
distinct [] = []
distinct (x ∷ xs) = let rest = distinct xs in if member x rest then rest else x ∷ rest

unfoldable pub sorted_set : List String → List String
unfolding distinct
sorted_set xs = sort text_lt (distinct xs)

module _ (py : Platform) where
  -- _role_definition
  unfoldable pub role_definition : String → IdentityStore → Option RoleDefinition
  unfolding with_defaults
  role_definition code store = with_defaults store.role_definitions (py.upper code)

  abbrev pub scopes_of_role : IdentityStore → Role → List String
  scopes_of_role store r = elim (role_definition r.role store) [
    | some d ↦ d.scopes
    | none ↦ r.scopes
  ]

  unfoldable pub programme_scope : Role → List String
  programme_scope r = elim r.programme_slug [
    | none ↦ []
    | some slug ↦
        if is_empty slug
        then []
        else concat "programme:" (concat slug (concat ":" (py.lower r.role))) ∷ []
  ]

  unfoldable pub granted_by : IdentityStore → List Role → List String
  unfolding role_definition programme_scope
  granted_by store [] = []
  granted_by store (r ∷ rs) =
      keep (λ s. not (str_eq s "operations.read")) (scopes_of_role store r)
      ++ (programme_scope r ++ granted_by store rs)

  -- _scopes
  unfoldable pub scopes_of : String → IdentityStore → List String
  unfolding granted_by sorted_set roles_of
  scopes_of account_id store =
      sorted_set ("identity.me" ∷ granted_by store (roles_of account_id store))
