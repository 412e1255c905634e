-- ===== src/Identity/PreservedRoles.antt =====
-- What the parts of the handlers of services/identity.py keep, the handlers of roles and of whole accounts keep.
use myota_platform.Identity.Roles.{Platform}
use myota_platform.Identity.Store.{IdentityStore, Handler}
use myota_platform.Base.{String, ℕ}
use myota_platform.Identity.Primitives.{Primitives, steps, auth-Keeps}
use myota_platform.Identity.Administration.{assign_role, issue_service_token, deactivate_account}
use myota_platform.Base.Effect.{Keeps}
use myota_platform.Identity.Auth.{RequestContext}
use myota_platform.Json.{Fields}

module _ (py : Platform) (P : IdentityStore → Type 0) (New : String → Type 0)
    (inv : Primitives py P New) where
  abbrev Leaves : {A : Type 0} → Handler A → Type 0
  Leaves m = Keeps P m

  pub assign_role-Keeps :
      (now : ℕ) (p : RequestContext) (new_id id : String) (body : Fields)
      → Leaves (assign_role py now p new_id id body)
  unfolding assign_role
  assign_role-Keeps now p new_id id body =
      search (steps, auth-Keeps py P, inv.role_kept, inv.audit_kept) depth 30

  pub issue_service_token-Keeps :
      (now : ℕ) (p : RequestContext) (jti : String) (body : Fields)
      → Leaves (issue_service_token py now p jti body)
  unfolding issue_service_token
  issue_service_token-Keeps now p jti body =
      search (steps, auth-Keeps py P, inv.audit_kept) depth 20

  pub deactivate_account-Keeps :
      (now : ℕ) (p : RequestContext) (id : String) (body : Fields)
      → Leaves (deactivate_account py now p id body)
  unfolding deactivate_account
  deactivate_account-Keeps now p id body =
      search
        (
          steps,
          auth-Keeps py P,
          inv.found_kept,
          inv.put_account_kept,
          inv.revoke_all_kept,
          inv.audit_kept,
        )
        depth 30
