-- ===== src/Identity/Store.antt =====
-- services/identity.py: the state of the service. Times are in microseconds, as now() and iso_after give
-- them; a dictionary that is only looked up and changed by key is a function.
use myota_platform.Base.{
  some, ◌∷◌, [], String, Option, List, ℕ, if◌then◌else◌, ◌*◌, ◌++◌, Bool, str_eq, true, find_row,
  update_row, set_row,
}
use myota_platform.Base.Raise.{Result, or_raise}
use myota_platform.Json.{Json}
use myota_platform.Awards.Design.{ServiceError, key_error}
use myota_platform.Identity.RateLimit.{Limits}

pub record Callsign : Type 0 where
  pub id : String
  pub value : String
  pub status : Json
  pub source : Json
  pub verification_source : Json
  pub verified_at : Option ℕ
  pub valid_from : Json
  pub valid_to : Json
  pub evidence_ids : List String
  pub created_at : ℕ
  pub updated_at : ℕ

pub record Account : Type 0 where
  pub id : String
  pub display_name : Json
  pub email : Option String
  pub participation_type : Json
  pub status : Json
  pub callsigns : List Callsign
  pub primary_callsign_id : Option String
  pub created_at : ℕ
  pub updated_at : ℕ

pub record Credential : Type 0 where
  pub password_hash : Option String
  pub failed_attempts : ℕ
  pub locked_until : Option ℕ

pub record Session : Type 0 where
  pub account_id : String
  pub refresh_hash : String
  pub access_jti : String
  pub created_at : ℕ
  pub expires_at : ℕ
  pub revoked_at : Option ℕ

pub record Recovery : Type 0 where
  pub account_id : String
  pub expires_at : ℕ
  pub used_at : Option ℕ

pub record Role : Type 0 where
  pub id : String
  pub account_id : String
  pub role : String
  -- a text, or null
  pub programme_slug : Option String
  pub jurisdiction : Json
  pub entity_type : Json
  pub scopes : List String
  pub created_at : ℕ
  pub valid_to : Option ℕ

pub record RoleDefinition : Type 0 where
  pub name : String
  pub description : Json
  pub scopes : List String
  pub system : Bool

pub record Evidence : Type 0 where
  pub id : String
  pub callsign_id : String
  pub account_id : String
  pub evidence_type : Json
  pub source : Json
  pub checksum : Json
  pub metadata : Json
  pub submitted_at : ℕ
  pub status : String
  pub reviewed_at : Option ℕ

pub record IdentityStore : Type 0 where
  pub accounts : List Account
  pub credentials : String → Option Credential
  pub sessions : String → Option Session
  pub recovery : String → Option Recovery
  -- the expiry of a revoked token, by its jti
  pub revoked_jti : String → Option Json
  pub rate_limits : Limits
  pub roles : List Role
  pub role_definitions : String → Option RoleDefinition
  pub evidence : List Evidence
  -- the time and the type of a security event
  pub security_events : List (ℕ × String)
  -- the events of store.event: type and aggregate
  pub events : List (String × String)

-- a handler, or a part of one
abbrev pub Handler : Type 0 → Type 0
Handler A = IdentityStore → Result ServiceError A × IdentityStore

-- d[k] = v
abbrev pub assign {ℓ} : {A : Type ℓ} → String → A → (String → Option A) → String → Option A
assign k v d j = if str_eq k j then some v else d j

-- seconds as microseconds
abbrev pub seconds : ℕ → ℕ
seconds n = n * 1000000

-- _account
unfoldable pub account : String → Handler Account
account id store = (or_raise (find_row (λ a. a.id) id store.accounts) key_error, store)

-- an account in the place of the one with its identifier, after changes of its dictionary
unfoldable pub put_account : Account → IdentityStore → IdentityStore
put_account a store = record store {
  accounts = update_row (λ b. b.id) a.id (λ b. true) (λ b. a) store.accounts;
}

-- store.items[account["id"]] = account
unfoldable pub add_account : Account → IdentityStore → IdentityStore
unfolding set_row
add_account a store = record store { accounts = set_row (λ b. b.id) a store.accounts }

unfoldable pub event : String → String → IdentityStore → IdentityStore
event event_type aggregate_id store = record store {
  events = store.events ++ (event_type, aggregate_id) ∷ [];
}

-- _audit
unfoldable pub audit : ℕ → String → String → IdentityStore → IdentityStore
unfolding event
audit now event_type aggregate_id store =
    event event_type aggregate_id
      (record store { security_events = store.security_events ++ (now, event_type) ∷ [] })
