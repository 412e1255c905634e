-- ===== src/Identity/Lasting.antt =====
-- Properties of the accounts, the roles and the role definitions of services/identity.py under its handlers.
use myota_platform.Base.{none, some, ◌∷◌, [], List, String, Option, ℕ, All}
use myota_platform.Base.Raise.{ok, err, Result}
use myota_platform.Identity.Roles.{Platform}
use myota_platform.Identity.Store.{
  Account, Role, RoleDefinition, IdentityStore, Handler, audit, account, put_account, Credential,
  add_account, event, Session,
}
use myota_platform.Identity.Login.{
  limit_rate, credential_for, fail_login, end_session, revoke_token, revoke, end_access, end_found,
  session_of,
}
use myota_platform.Identity.Passwords.{requested, revoke_all, with_password}
use myota_platform.Identity.Sessions.{mint_tokens, NewIds}
use myota_platform.Base.Effect.{modify, Keeps, modify-Keeps}
use myota_platform.Identity.Cleanup.{cleanup_expired}
use myota_platform.Identity.Requests.{
  IdentityRequest, after_requests, sign_up, create_new, log_in, renew, log_out, ask_recovery, reset,
  administer, define, redefine, give_role, give_token, deactivate, on_callsign,
}
use myota_platform.Json.{Fields, Json}
use myota_platform.Identity.Kept.{Opens, after_requests-Kept}
use myota_platform.Awards.Design.{ServiceError, permission_error}
use myota_platform.Identity.Auth.{RequestContext}
use myota_platform.Identity.Administration.{create_admin_role, update_admin_role, add_role}
use myota_platform.Identity.Primitives.{Primitives}
use myota_platform.Identity.Replacement.{replace_roles}

module _ (py : Platform)
    (P : List Account → List Role → (String → Option RoleDefinition) → Type 0) where
  -- the property of the state
  abbrev pub Lasts : IdentityStore → Type 0
  Lasts s = P s.accounts s.roles s.role_definitions

  -- the handler keeps it
  abbrev pub Lasting : {A : Type 0} → Handler A → Type 0
  Lasting m = Keeps Lasts m

  limit-Lasting : (now : ℕ) (key : String) → Lasting (limit_rate py now key)
  unfolding limit_rate
  limit-Lasting now key = record { kept = λ s d. d }

  credential_for-Lasting : (a : Option Account) → Lasting (credential_for a)
  unfolding credential_for
  credential_for-Lasting none = record { kept = λ s d. d }
  credential_for-Lasting (some a) = record { kept = λ s d. d }

  fail-Lasting :
      (now : ℕ) (a : Option Account) (c : Credential) → Lasting (modify (fail_login py now a c))
  unfolding fail_login audit
  fail-Lasting now none c = modify-Keeps Lasts _ (λ s d. d)
  fail-Lasting now (some a) c = modify-Keeps Lasts _ (λ s d. d)

  requested-Lasting :
      (now : ℕ) (raw : String) (a : Option Account) → Lasting (modify (requested py now raw a))
  unfolding requested audit
  requested-Lasting now raw none = modify-Keeps Lasts _ (λ s d. d)
  requested-Lasting now raw (some a) = modify-Keeps Lasts _ (λ s d. d)

  end_session-Lasting : (now : ℕ) (r : Result ServiceError Fields) → Lasting (end_session now r)
  unfolding end_session revoke revoke_token
  end_session-Lasting now (ok claims) = record { kept = λ s d. ended (session_of claims s) s d }
    where
      ended : (x : Option Session) (s : IdentityStore) → Lasts s → Lasts (end_found now claims x s)
      ended none s d = d
      ended (some x) s d = d
  end_session-Lasting now (err permission_error) = record { kept = λ s d. d }
  end_session-Lasting now (err _) = record { kept = λ s d. d }

  end_access-Lasting : (c : Option Fields) → Lasting (modify (end_access c))
  unfolding revoke_token
  end_access-Lasting none = modify-Keeps Lasts _ (λ s d. d)
  end_access-Lasting (some c) = modify-Keeps Lasts _ (λ s d. d)

  pub audit-Lasting : (now : ℕ) (t id : String) → Lasting (modify (audit now t id))
  unfolding audit
  audit-Lasting now t id = modify-Keeps Lasts _ (λ s d. d)

  account-Lasting : (id : String) → Lasting (account id)
  unfolding account
  account-Lasting id = record { kept = λ s d. d }

  mint-Lasting : (now : ℕ) (ids : NewIds) (a : Account) → Lasting (mint_tokens py now ids a)
  unfolding mint_tokens
  mint-Lasting now ids a = record { kept = λ s d. d }

  -- only the parts that change accounts, roles or role definitions have to keep the property
  pub record Changes : Type 0 where
    pub put_account_kept : (a : Account) → Lasting (modify (put_account a))
    pub new_account_kept : (a : Account) → Lasting (modify (add_account a))
    pub created_kept :
        (now : ℕ) (p : RequestContext) (body : Fields) → Lasting (create_admin_role py now p body)
    pub updated_kept :
        (now : ℕ) (p : RequestContext) (code : String) (body : Fields)
        → Lasting (update_admin_role py now p code body)
    pub role_kept : (r : Role) → Lasting (modify (add_role r))
    pub replaces_kept :
        (now : ℕ) (p : RequestContext) (new_id : ℕ → String) (id : String) (as_ : List Json)
        → Lasting (replace_roles py now p new_id id as_)

  pub lasting_primitives : Changes → Primitives py Lasts (λ k. Unit {0})
  unfolding cleanup_expired revoke revoke_all event with_password
  lasting_primitives c = record {
    cleanup_kept = λ now. modify-Keeps Lasts _ (λ s d. d);
    revoke_kept = λ now k. modify-Keeps Lasts _ (λ s d. d);
    revoke_all_kept = λ now k. modify-Keeps Lasts _ (λ s d. d);
    audit_kept = audit-Lasting;
    event_kept = λ t id. modify-Keeps Lasts _ (λ s d. d);
    put_account_kept = c.put_account_kept;
    credential_kept = λ id k. modify-Keeps Lasts _ (λ s d. d);
    with_password_kept = λ now salt id password. modify-Keeps Lasts _ (λ s d. d);
    fail_kept = fail-Lasting;
    limit_kept = limit-Lasting;
    credential_for_kept = credential_for-Lasting;
    found_kept = account-Lasting;
    requested_kept = requested-Lasting;
    end_session_kept = end_session-Lasting;
    end_access_kept = end_access-Lasting;
    used_kept = λ k r. modify-Keeps Lasts _ (λ s d. d);
    new_account_kept = c.new_account_kept;
    evidence_kept = λ f. modify-Keeps Lasts _ (λ s d. d);
    mint_kept = λ now ids a n. mint-Lasting now ids a;
    created_kept = c.created_kept;
    updated_kept = c.updated_kept;
    role_kept = c.role_kept;
    replaces_kept = c.replaces_kept;
  }

  pub requests-Lasting :
      (rs : List IdentityRequest) (s : IdentityStore)
      → Changes
      → Lasts s
      → Lasts (after_requests py s rs)
  requests-Lasting rs s c h =
      after_requests-Kept py Lasts (λ k. Unit {0}) (lasting_primitives c) rs s (opening rs) h
    where
      opens : (r : IdentityRequest) → Opens (λ k. Unit {0}) r
      opens (sign_up now salt id callsign_id ids body) = tt
      opens (create_new now salt id callsign_id body) = tt
      opens (log_in now p ids body) = tt
      opens (renew now ids body) = tt
      opens (log_out now p body) = tt
      opens (ask_recovery now raw body) = tt
      opens (reset now salt body) = tt
      opens (administer now p salt new_id id body) = tt
      opens (define now p body) = tt
      opens (redefine now p code body) = tt
      opens (give_role now p new_id id body) = tt
      opens (give_token now p jti body) = tt
      opens (deactivate now p id body) = tt
      opens (on_callsign r) = tt

      opening : (rs : List IdentityRequest) → All (Opens λ k. Unit {0}) rs
      opening [] = tt
      opening (r ∷ rs) = (opens r, opening rs)
