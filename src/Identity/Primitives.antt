-- ===== src/Identity/Primitives.antt =====
-- The parts of the handlers of services/identity.py, and a property of the state that each of them keeps.
use myota_platform.Base.Effect.{
  if-Keeps, lift-Keeps, bind-Keeps, state-Keeps, pure-Keeps, Keeps, raise-Keeps, modify,
}
use myota_platform.Identity.Roles.{Platform}
use myota_platform.Identity.Store.{
  IdentityStore, audit, event, Account, put_account, Credential, account, Recovery, assign,
  add_account, Evidence, Role,
}
use myota_platform.Base.{String, ℕ, Option, List}
use myota_platform.Identity.Cleanup.{cleanup_expired}
use myota_platform.Identity.Login.{
  revoke, set_credential, fail_login, limit_rate, credential_for, end_session, end_access,
}
use myota_platform.Identity.Passwords.{revoke_all, with_password, requested}
use myota_platform.Base.Raise.{Result}
use myota_platform.Awards.Design.{ServiceError}
use myota_platform.Json.{Fields, Json}
use myota_platform.Identity.Sessions.{NewIds, mint_tokens}
use myota_platform.Identity.Auth.{RequestContext, auth, admin_authorize}
use myota_platform.Identity.Replacement.{replace_roles}
use myota_platform.Identity.Administration.{create_admin_role, update_admin_role, add_role}

pub ruleset steps = (if-Keeps, lift-Keeps, bind-Keeps, state-Keeps, pure-Keeps, raise-Keeps)

-- the property is kept, where new sessions have new identifiers
pub record Primitives (py : Platform) (P : IdentityStore → Type 0) (New : String → Type 0)
    : Type 0 where
  pub cleanup_kept : (now : ℕ) → Keeps {E = ServiceError} P (modify (cleanup_expired py now))
  pub revoke_kept : (now : ℕ) (k : String) → Keeps {E = ServiceError} P (modify (revoke now k))
  pub revoke_all_kept :
      (now : ℕ) (k : String) → Keeps {E = ServiceError} P (modify (revoke_all now k))
  pub audit_kept : (now : ℕ) (t id : String) → Keeps {E = ServiceError} P (modify (audit now t id))
  pub event_kept : (t id : String) → Keeps {E = ServiceError} P (modify (event t id))
  pub put_account_kept : (a : Account) → Keeps {E = ServiceError} P (modify (put_account a))
  pub credential_kept :
      (id : String) (c : Credential) → Keeps {E = ServiceError} P (modify (set_credential id c))
  pub with_password_kept :
      (now : ℕ) (salt id password : String)
      → Keeps {E = ServiceError} P (modify (with_password py now salt id password))
  pub fail_kept :
      (now : ℕ) (a : Option Account) (c : Credential)
      → Keeps {E = ServiceError} P (modify (fail_login py now a c))
  pub limit_kept : (now : ℕ) (key : String) → Keeps {E = ServiceError} P (limit_rate py now key)
  pub credential_for_kept : (a : Option Account) → Keeps {E = ServiceError} P (credential_for a)
  pub found_kept : (id : String) → Keeps {E = ServiceError} P (account id)
  pub requested_kept :
      (now : ℕ) (raw : String) (a : Option Account)
      → Keeps {E = ServiceError} P (modify (requested py now raw a))
  pub end_session_kept :
      (now : ℕ) (r : Result ServiceError Fields) → Keeps {E = ServiceError} P (end_session now r)
  pub end_access_kept : (c : Option Fields) → Keeps {E = ServiceError} P (modify (end_access c))
  pub used_kept :
      (k : String) (r : Recovery)
      → Keeps {E = ServiceError} P (modify (λ s. record s { recovery = assign k r s.recovery }))
  pub new_account_kept : (a : Account) → Keeps {E = ServiceError} P (modify (add_account a))
  pub evidence_kept :
      (f : IdentityStore → List Evidence)
      → Keeps {E = ServiceError} P (modify (λ s. record s { evidence = f s }))
  pub mint_kept :
      (now : ℕ) (ids : NewIds) (a : Account)
      → New ids.session_id
      → Keeps {E = ServiceError} P (mint_tokens py now ids a)
  pub created_kept :
      (now : ℕ) (p : RequestContext) (body : Fields)
      → Keeps {E = ServiceError} P (create_admin_role py now p body)
  pub updated_kept :
      (now : ℕ) (p : RequestContext) (code : String) (body : Fields)
      → Keeps {E = ServiceError} P (update_admin_role py now p code body)
  pub role_kept : (r : Role) → Keeps {E = ServiceError} P (modify (add_role r))
  pub replaces_kept :
      (now : ℕ) (p : RequestContext) (new_id : ℕ → String) (id : String) (as_ : List Json)
      → Keeps {E = ServiceError} P (replace_roles py now p new_id id as_)

-- who calls is found without a change of the state
module _ (py : Platform) (P : IdentityStore → Type 0) where
  pub auth-Keeps :
      (now : ℕ) (p : RequestContext) (scopes : List String) (id : Option String)
      → Keeps {E = ServiceError} P (auth py now p scopes id)
  unfolding auth
  auth-Keeps now p scopes id = search steps depth 14

  pub admin-Keeps :
      (now : ℕ) (p : RequestContext) (permission : String)
      → Keeps {E = ServiceError} P (admin_authorize py now p permission)
  unfolding admin_authorize
  admin-Keeps now p permission = search (steps, auth-Keeps) depth 14
