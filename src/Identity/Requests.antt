-- ===== src/Identity/Requests.antt =====
-- The requests that services/identity.py serves on accounts, sessions, passwords and roles.
use myota_platform.Base.{◌∷◌, [], ℕ, String, List}
use myota_platform.Identity.Roles.{Platform}
use myota_platform.Identity.Store.{IdentityStore}
use myota_platform.Identity.Sessions.{NewIds}
use myota_platform.Identity.Accounts.{register, create_account, update_admin_account}
use myota_platform.Json.{Fields}
use myota_platform.Identity.Auth.{RequestContext}
use myota_platform.Identity.Login.{login, refresh, logout}
use myota_platform.Identity.Primary.{CallsignRequest, after_callsign}
use myota_platform.Identity.Passwords.{recovery_request, recovery_reset}
use myota_platform.Identity.Administration.{
  create_admin_role, update_admin_role, assign_role, issue_service_token, deactivate_account,
}

pub data IdentityRequest : Type 0 where
  sign_up :
      (now : ℕ) (salt account_id callsign_id : String) (ids : NewIds) (body : Fields)
      → IdentityRequest
  create_new : (now : ℕ) (salt account_id callsign_id : String) (body : Fields) → IdentityRequest
  log_in : (now : ℕ) (p : RequestContext) (ids : NewIds) (body : Fields) → IdentityRequest
  renew : (now : ℕ) (ids : NewIds) (body : Fields) → IdentityRequest
  log_out : (now : ℕ) (p : RequestContext) (body : Fields) → IdentityRequest
  ask_recovery : (now : ℕ) (raw : String) (body : Fields) → IdentityRequest
  reset : (now : ℕ) (salt : String) (body : Fields) → IdentityRequest
  administer :
      (now : ℕ) (p : RequestContext) (salt : String) (new_id : ℕ → String) (account_id : String)
      (body : Fields)
      → IdentityRequest
  define : (now : ℕ) (p : RequestContext) (body : Fields) → IdentityRequest
  redefine : (now : ℕ) (p : RequestContext) (code : String) (body : Fields) → IdentityRequest
  give_role :
      (now : ℕ) (p : RequestContext) (new_id account_id : String) (body : Fields) → IdentityRequest
  give_token : (now : ℕ) (p : RequestContext) (jti : String) (body : Fields) → IdentityRequest
  deactivate :
      (now : ℕ) (p : RequestContext) (account_id : String) (body : Fields) → IdentityRequest
  on_callsign : CallsignRequest → IdentityRequest

module _ (py : Platform) where
  -- the state after a request, kept or raised
  unfoldable pub after_request : IdentityRequest → IdentityStore → IdentityStore
  after_request (sign_up now salt account_id callsign_id ids body) store =
      (register py now salt account_id callsign_id ids body store).1
  after_request (create_new now salt account_id callsign_id body) store =
      (create_account py now salt account_id callsign_id body store).1
  after_request (log_in now p ids body) store = (login py now p ids body store).1
  after_request (renew now ids body) store = (refresh py now ids body store).1
  after_request (log_out now p body) store = (logout py now p body store).1
  after_request (ask_recovery now raw body) store = (recovery_request py now raw body store).1
  after_request (reset now salt body) store = (recovery_reset py now salt body store).1
  after_request (administer now p salt new_id account_id body) store =
      (update_admin_account py now p salt new_id account_id body store).1
  after_request (define now p body) store = (create_admin_role py now p body store).1
  after_request (redefine now p code body) store = (update_admin_role py now p code body store).1
  after_request (give_role now p new_id account_id body) store =
      (assign_role py now p new_id account_id body store).1
  after_request (give_token now p jti body) store = (issue_service_token py now p jti body store).1
  after_request (deactivate now p account_id body) store =
      (deactivate_account py now p account_id body store).1
  after_request (on_callsign r) store = after_callsign py r store

  unfoldable pub after_requests : IdentityStore → List IdentityRequest → IdentityStore
  after_requests store [] = store
  after_requests store (r ∷ rs) = after_requests (after_request r store) rs
