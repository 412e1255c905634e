-- ===== src/Identity/DeadSessions.antt =====
-- The parts of the handlers of services/identity.py leave a revoked session revoked.
use myota_platform.Base.{false, none, some, String, ℕ, Option, List, str_eq, ◌≡◌}
use myota_platform.Base.Raise.{ok, err, Result}
use myota_platform.Identity.Roles.{Platform}
use myota_platform.Identity.Store.{
  Handler, account, audit, IdentityStore, event, put_account, Account, Role, Credential,
  add_account, Session, RoleDefinition,
}
use myota_platform.Identity.Login.{
  limit_rate, credential_for, fail_login, end_session, revoke_token, end_access, end_found, sid_of,
  session_of,
}
use myota_platform.Identity.Passwords.{requested, with_password}
use myota_platform.Identity.Replacement.{replace_roles}
use myota_platform.Base.Effect.{Keeps, modify, modify-Keeps}
use myota_platform.Json.{Fields, Json}
use myota_platform.Identity.Auth.{RequestContext}
use myota_platform.Identity.Revocation.{Dead, revoke-Dead, cleanup-Dead, revoke_all-Dead, mint-Dead}
use myota_platform.Awards.Design.{ServiceError, permission_error}
use myota_platform.Identity.Primitives.{Primitives, steps, admin-Keeps}
use myota_platform.Identity.Administration.{
  define_role, create_admin_role, edit_role, update_admin_role, add_role,
}

module _ (py : Platform) (sid : String) where
  -- the handler leaves the session dead
  abbrev Stays : {A : Type 0} → Handler A → Type 0
  Stays m = Keeps (Dead sid) m

  limit-Stays : (now : ℕ) (key : String) → Stays (limit_rate py now key)
  unfolding limit_rate
  limit-Stays now key = record { kept = λ s d. d }

  credential_for-Stays : (a : Option Account) → Stays (credential_for a)
  unfolding credential_for
  credential_for-Stays none = record { kept = λ s d. d }
  credential_for-Stays (some a) = record { kept = λ s d. d }

  account-Stays : (id : String) → Stays (account id)
  unfolding account
  account-Stays id = record { kept = λ s d. d }

  fail-Stays :
      (now : ℕ) (a : Option Account) (c : Credential) → Stays (modify (fail_login py now a c))
  unfolding fail_login
  fail-Stays now none c = modify-Keeps (Dead sid) _ (λ s d. d)
  fail-Stays now (some a) c = modify-Keeps (Dead sid) _ (λ s d. d)

  requested-Stays :
      (now : ℕ) (raw : String) (a : Option Account) → Stays (modify (requested py now raw a))
  unfolding requested
  requested-Stays now raw none = modify-Keeps (Dead sid) _ (λ s d. d)
  requested-Stays now raw (some a) = modify-Keeps (Dead sid) _ (λ s d. d)

  end_session-Stays : (now : ℕ) (r : Result ServiceError Fields) → Stays (end_session now r)
  unfolding end_session
  end_session-Stays now (ok claims) = record { kept = λ s d. ended (session_of claims s) s d }
    where
      ended :
          (x : Option Session) (s : IdentityStore)
          → Dead sid s
          → Dead sid (end_found now claims x s)
      ended none s d = d
      ended (some x) s d = revoke-Dead py sid now (sid_of claims) s d
  end_session-Stays now (err permission_error) = record { kept = λ s d. d }
  end_session-Stays now (err _) = record { kept = λ s d. d }

  end_access-Stays : (c : Option Fields) → Stays (modify (end_access c))
  unfolding revoke_token
  end_access-Stays none = modify-Keeps (Dead sid) _ (λ s d. d)
  end_access-Stays (some c) = modify-Keeps (Dead sid) _ (λ s d. d)

  audit-Stays : (now : ℕ) (t id : String) → Stays (modify (audit now t id))
  unfolding audit
  audit-Stays now t id = modify-Keeps (Dead sid) _ (λ s d. d)

  roles-Stays : (f : IdentityStore → List Role) → Stays (modify (λ s. record s { roles = f s }))
  roles-Stays f = modify-Keeps (Dead sid) _ (λ s d. d)

  replaces-Stays :
      (now : ℕ) (p : RequestContext) (new_id : ℕ → String) (id : String) (as_ : List Json)
      → Stays (replace_roles py now p new_id id as_)
  unfolding replace_roles
  replaces-Stays now p new_id id as_ =
      search (steps, admin-Keeps py (Dead sid), roles-Stays, audit-Stays) depth 20

  define-Stays : (k : String) (d : RoleDefinition) → Stays (modify (define_role k d))
  unfolding define_role
  define-Stays k d = modify-Keeps (Dead sid) _ (λ s h. h)

  created-Stays :
      (now : ℕ) (p : RequestContext) (body : Fields) → Stays (create_admin_role py now p body)
  unfolding create_admin_role
  created-Stays now p body =
      search (steps, admin-Keeps py (Dead sid), define-Stays, audit-Stays) depth 30

  edited-Stays :
      (now : ℕ) (k : String) (body : Fields) (d : RoleDefinition)
      → Stays (edit_role py now k body d)
  unfolding edit_role
  edited-Stays now k body d = search (steps, define-Stays, audit-Stays) depth 30

  updated-Stays :
      (now : ℕ) (p : RequestContext) (k : String) (body : Fields)
      → Stays (update_admin_role py now p k body)
  unfolding update_admin_role
  updated-Stays now p k body = search (steps, admin-Keeps py (Dead sid), edited-Stays) depth 30

  -- a revoked session stays so through every part, where no session is opened under its identifier
  pub dead_primitives : Primitives py (Dead sid) (λ k. str_eq k sid ≡ false)
  unfolding event put_account with_password add_account add_role
  dead_primitives = record {
    cleanup_kept = λ now. modify-Keeps (Dead sid) _ (cleanup-Dead py sid now);
    revoke_kept = λ now k. modify-Keeps (Dead sid) _ (revoke-Dead py sid now k);
    revoke_all_kept = λ now k. modify-Keeps (Dead sid) _ (revoke_all-Dead py sid now k);
    audit_kept = audit-Stays;
    event_kept = λ t id. modify-Keeps (Dead sid) _ (λ s d. d);
    put_account_kept = λ a. modify-Keeps (Dead sid) _ (λ s d. d);
    credential_kept = λ id c. modify-Keeps (Dead sid) _ (λ s d. d);
    with_password_kept = λ now salt id password. modify-Keeps (Dead sid) _ (λ s d. d);
    fail_kept = fail-Stays;
    limit_kept = limit-Stays;
    credential_for_kept = credential_for-Stays;
    found_kept = account-Stays;
    requested_kept = requested-Stays;
    end_session_kept = end_session-Stays;
    end_access_kept = end_access-Stays;
    used_kept = λ k r. modify-Keeps (Dead sid) _ (λ s d. d);
    new_account_kept = λ a. modify-Keeps (Dead sid) _ (λ s d. d);
    evidence_kept = λ f. modify-Keeps (Dead sid) _ (λ s d. d);
    mint_kept = λ now ids a n. mint-Dead py sid now ids a n;
    created_kept = created-Stays;
    updated_kept = updated-Stays;
    role_kept = λ r. modify-Keeps (Dead sid) _ (λ s d. d);
    replaces_kept = replaces-Stays;
  }
