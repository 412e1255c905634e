-- ===== src/Identity/Kept.antt =====
-- What the parts of the handlers of services/identity.py keep, any sequence of requests keeps.
use myota_platform.Base.{◌∷◌, [], String, List, All}
use myota_platform.Identity.Roles.{Platform}
use myota_platform.Identity.Requests.{
  IdentityRequest, sign_up, log_in, after_request, after_requests, renew, create_new, log_out,
  ask_recovery, reset, administer, on_callsign, define, redefine, give_role, give_token, deactivate,
}
use myota_platform.Identity.Store.{IdentityStore}
use myota_platform.Identity.Primitives.{Primitives}
use myota_platform.Identity.Primary.{
  after_callsign, CallsignRequest, add, make_primary, give_evidence, verify, retire,
}
use myota_platform.Identity.PreservedElsewhere.{
  register-Keeps, add_callsign-Keeps, create_account-Keeps, set_primary-Keeps, add_evidence-Keeps,
  verify_callsign-Keeps, recovery_request-Keeps, retire_callsign-Keeps, recovery_reset-Keeps,
  update_admin_account-Keeps,
}
use myota_platform.Identity.Preserved.{login-Keeps, refresh-Keeps, logout-Keeps}
use myota_platform.Identity.PreservedRoles.{
  assign_role-Keeps, issue_service_token-Keeps, deactivate_account-Keeps,
}

-- the session that a request may open has a new identifier
abbrev pub Opens : (String → Type 0) → IdentityRequest → Type 0
Opens New (sign_up now salt id callsign_id ids body) = New ids.session_id
Opens New (log_in now p ids body) = New ids.session_id
Opens New (renew now ids body) = New ids.session_id
Opens New _ = Unit {0}

module _ (py : Platform) (P : IdentityStore → Type 0) (New : String → Type 0)
    (inv : Primitives py P New) where
  after_callsign-Kept : (r : CallsignRequest) (s : IdentityStore) → P s → P (after_callsign py r s)
  unfolding after_callsign
  after_callsign-Kept (add now p new_id id body) s d =
      (add_callsign-Keeps py P New inv now p new_id id body).kept s d
  after_callsign-Kept (make_primary now p id body) s d =
      (set_primary-Keeps py P New inv now p id body).kept s d
  after_callsign-Kept (give_evidence now p new_id id k body) s d =
      (add_evidence-Keeps py P New inv now p new_id id k body).kept s d
  after_callsign-Kept (verify now p id k body) s d =
      (verify_callsign-Keeps py P New inv now p id k body).kept s d
  after_callsign-Kept (retire now p id k body) s d =
      (retire_callsign-Keeps py P New inv now p id k body).kept s d

  after_request-Kept :
      (r : IdentityRequest) (s : IdentityStore) → Opens New r → P s → P (after_request py r s)
  unfolding after_request
  after_request-Kept (sign_up now salt id callsign_id ids body) s n d =
      (register-Keeps py P New inv now salt id callsign_id ids body n).kept s d
  after_request-Kept (create_new now salt id callsign_id body) s n d =
      (create_account-Keeps py P New inv now salt id callsign_id body).kept s d
  after_request-Kept (log_in now p ids body) s n d =
      (login-Keeps py P New inv now p ids body n).kept s d
  after_request-Kept (renew now ids body) s n d =
      (refresh-Keeps py P New inv now ids body n).kept s d
  after_request-Kept (log_out now p body) s n d = (logout-Keeps py P New inv now p body).kept s d
  after_request-Kept (ask_recovery now raw body) s n d =
      (recovery_request-Keeps py P New inv now raw body).kept s d
  after_request-Kept (reset now salt body) s n d =
      (recovery_reset-Keeps py P New inv now salt body).kept s d
  after_request-Kept (administer now p salt new_id id body) s n d =
      (update_admin_account-Keeps py P New inv now p salt new_id id body).kept s d
  after_request-Kept (define now p body) s n d = (inv.created_kept now p body).kept s d
  after_request-Kept (redefine now p code body) s n d = (inv.updated_kept now p code body).kept s d
  after_request-Kept (give_role now p new_id id body) s n d =
      (assign_role-Keeps py P New inv now p new_id id body).kept s d
  after_request-Kept (give_token now p jti body) s n d =
      (issue_service_token-Keeps py P New inv now p jti body).kept s d
  after_request-Kept (deactivate now p id body) s n d =
      (deactivate_account-Keeps py P New inv now p id body).kept s d
  after_request-Kept (on_callsign r) s n d = after_callsign-Kept r s d

  pub after_requests-Kept :
      (rs : List IdentityRequest) (s : IdentityStore)
      → All (Opens New) rs
      → P s
      → P (after_requests py s rs)
  unfolding after_requests
  after_requests-Kept [] s n d = d
  after_requests-Kept (r ∷ rs) s n d =
      after_requests-Kept rs (after_request py r s) n.1 (after_request-Kept r s n.0 d)
