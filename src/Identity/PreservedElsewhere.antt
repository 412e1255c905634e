-- ===== src/Identity/PreservedElsewhere.antt =====
-- What the parts of the handlers of services/identity.py keep, the handlers of accounts, passwords and callsigns keep.
use myota_platform.Identity.Roles.{Platform}
use myota_platform.Identity.Store.{IdentityStore, Handler, Recovery, Account}
use myota_platform.Base.{String, ℕ, List}
use myota_platform.Identity.Primitives.{Primitives, steps, admin-Keeps, auth-Keeps}
use myota_platform.Identity.Passwords.{
  set_password, recovery_request, use_recovery, end_recovery, recovery_reset,
}
use myota_platform.Identity.Callsigns.{
  append_callsign, add_callsign, set_primary, add_evidence, verify_callsign, retire_callsign,
}
use myota_platform.Identity.Accounts.{
  create, create_account, register, with_field, update_admin_account,
}
use myota_platform.Base.Effect.{Keeps}
use myota_platform.Json.{Fields, Json}
use myota_platform.Identity.Sessions.{NewIds}
use myota_platform.Identity.Auth.{RequestContext}

module _ (py : Platform) (P : IdentityStore → Type 0) (New : String → Type 0)
    (inv : Primitives py P New) where
  abbrev Leaves : {A : Type 0} → Handler A → Type 0
  Leaves m = Keeps P m

  pub set_password-Keeps :
      (now : ℕ) (salt id password : String) → Leaves (set_password py now salt id password)
  unfolding set_password
  set_password-Keeps now salt id password = search (steps, inv.with_password_kept) depth 14

  pub recovery_request-Keeps :
      (now : ℕ) (raw : String) (body : Fields) → Leaves (recovery_request py now raw body)
  unfolding recovery_request
  recovery_request-Keeps now raw body =
      search (steps, inv.cleanup_kept, inv.requested_kept) depth 20

  pub use_recovery-Keeps :
      (now : ℕ) (salt : String) (body : Fields) → Leaves (use_recovery py now salt body)
  unfolding use_recovery
  use_recovery-Keeps now salt body = search (steps, set_password-Keeps, inv.used_kept) depth 30

  end_recovery-Keeps : (now : ℕ) (r : Recovery) → Leaves (end_recovery py now r)
  unfolding end_recovery
  end_recovery-Keeps now r = search (steps, inv.revoke_all_kept, inv.audit_kept) depth 14

  pub recovery_reset-Keeps :
      (now : ℕ) (salt : String) (body : Fields) → Leaves (recovery_reset py now salt body)
  unfolding recovery_reset
  recovery_reset-Keeps now salt body =
      search (steps, use_recovery-Keeps, end_recovery-Keeps) depth 14

  pub append_callsign-Keeps :
      (now : ℕ) (id : String) (a : Account) (value status source vf vt : Json)
      → Leaves (append_callsign py now id a value status source vf vt)
  unfolding append_callsign
  append_callsign-Keeps now id a value status source vf vt =
      search (steps, inv.put_account_kept, inv.event_kept) depth 20

  pub create-Keeps :
      (now : ℕ) (salt id callsign_id : String) (body : Fields)
      → Leaves (create py now salt id callsign_id body)
  unfolding create
  create-Keeps now salt id callsign_id body =
      search
        (
          steps, inv.new_account_kept, set_password-Keeps, append_callsign-Keeps, inv.event_kept,
          inv.found_kept,
        )
        depth 30

  pub create_account-Keeps :
      (now : ℕ) (salt id callsign_id : String) (body : Fields)
      → Leaves (create_account py now salt id callsign_id body)
  unfolding create_account
  create_account-Keeps now salt id callsign_id body = search (steps, create-Keeps) depth 20

  pub register-Keeps :
      (now : ℕ) (salt id callsign_id : String) (ids : NewIds) (body : Fields)
      → New ids.session_id
      → Leaves (register py now salt id callsign_id ids body)
  unfolding register
  register-Keeps now salt id callsign_id ids body n =
      search (steps, create_account-Keeps, inv.mint_kept) depth 20

  pub with_field-Keeps :
      (name : String) (allowed : List String) (set_ : Json → Account → Account) (body : Fields)
      (a : Account)
      → Leaves (with_field py name allowed set_ body a)
  unfolding with_field
  with_field-Keeps name allowed set_ body a = search (steps, inv.put_account_kept) depth 14

  pub update_admin_account-Keeps :
      (now : ℕ) (p : RequestContext) (salt : String) (new_id : ℕ → String) (id : String)
      (body : Fields)
      → Leaves (update_admin_account py now p salt new_id id body)
  unfolding update_admin_account
  update_admin_account-Keeps now p salt new_id id body =
      search
        (
          steps,
          admin-Keeps py P,
          inv.found_kept,
          inv.put_account_kept,
          with_field-Keeps,
          inv.revoke_all_kept,
          inv.audit_kept,
          set_password-Keeps,
          inv.replaces_kept,
        )
        depth 50

  pub add_callsign-Keeps :
      (now : ℕ) (p : RequestContext) (new_id id : String) (body : Fields)
      → Leaves (add_callsign py now p new_id id body)
  unfolding add_callsign
  add_callsign-Keeps now p new_id id body =
      search (steps, auth-Keeps py P, inv.found_kept, append_callsign-Keeps) depth 20

  pub set_primary-Keeps :
      (now : ℕ) (p : RequestContext) (id : String) (body : Fields)
      → Leaves (set_primary py now p id body)
  unfolding set_primary
  set_primary-Keeps now p id body =
      search (steps, auth-Keeps py P, inv.found_kept, inv.put_account_kept, inv.event_kept) depth 20

  pub add_evidence-Keeps :
      (now : ℕ) (p : RequestContext) (new_id id k : String) (body : Fields)
      → Leaves (add_evidence py now p new_id id k body)
  unfolding add_evidence
  add_evidence-Keeps now p new_id id k body =
      search
        (
          steps,
          auth-Keeps py P,
          inv.found_kept,
          inv.evidence_kept,
          inv.put_account_kept,
          inv.event_kept,
        )
        depth 30

  pub verify_callsign-Keeps :
      (now : ℕ) (p : RequestContext) (id k : String) (body : Fields)
      → Leaves (verify_callsign py now p id k body)
  unfolding verify_callsign
  verify_callsign-Keeps now p id k body =
      search
        (
          steps,
          auth-Keeps py P,
          inv.found_kept,
          inv.evidence_kept,
          inv.put_account_kept,
          inv.event_kept,
        )
        depth 30

  pub retire_callsign-Keeps :
      (now : ℕ) (p : RequestContext) (id k : String) (body : Fields)
      → Leaves (retire_callsign py now p id k body)
  unfolding retire_callsign
  retire_callsign-Keeps now p id k body =
      search (steps, auth-Keeps py P, inv.found_kept, inv.put_account_kept, inv.event_kept) depth 30
