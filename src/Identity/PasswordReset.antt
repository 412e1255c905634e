-- ===== src/Identity/PasswordReset.antt =====
-- No session of services/identity.py outlives a reset of its account's password.
use myota_platform.Identity.Primitives.{steps}
use myota_platform.Base.{some, String, ℕ, ◌≡◌, List, refl, eq_refl, false, All, str_eq}
use myota_platform.Base.Raise.{ok, err}
use myota_platform.Identity.Roles.{Platform}
use myota_platform.Identity.Store.{Session, IdentityStore, Handler, Recovery, assign, audit}
use myota_platform.Json.{Fields}
use myota_platform.Identity.Passwords.{
  set_password, use_recovery, recovery_reset, with_password, revoke_all, end_recovery,
}
use myota_platform.Base.Effect.{modify, Keeps, bind-Keeps, lift-Keeps, modify-Keeps, bind-ok, ◌>>=◌}
use myota_platform.Identity.Sessions.{NewIds}
use myota_platform.Identity.Requests.{IdentityRequest, after_requests}
use myota_platform.Identity.Revocation.{Dead}
use myota_platform.Identity.SingleUse.{Brings, refused}
use myota_platform.Identity.Login.{refresh}
use myota_platform.Awards.Design.{permission_error}
use myota_platform.Identity.Kept.{Opens, after_requests-Kept}
use myota_platform.Identity.DeadSessions.{dead_primitives}

module _ (py : Platform) (sid : String) (x : Session) where
  -- the session stands under its identifier, as it is
  abbrev Stands : IdentityStore → Type 0
  Stands s = s.sessions sid ≡ some x

  abbrev Keeping : {A : Type 0} → Handler A → Type 0
  Keeping m = Keeps Stands m

  password-Keeping :
      (now : ℕ) (salt id password : String) → Keeping (set_password py now salt id password)
  unfolding set_password with_password
  password-Keeping now salt id password =
      bind-Keeps Stands (lift-Keeps Stands _) λ u. modify-Keeps Stands _ (λ s h. h)

  used-Keeping :
      (k : String) (r : Recovery)
      → Keeping (modify (λ s. record s { recovery = assign k r s.recovery }))
  used-Keeping k r = modify-Keeps Stands _ (λ s h. h)

  use_recovery-Keeping :
      (now : ℕ) (salt : String) (body : Fields) → Keeping (use_recovery py now salt body)
  unfolding use_recovery
  use_recovery-Keeping now salt body = search (steps, password-Keeping, used-Keeping) depth 30

  end-Dead :
      (now : ℕ) (r : Recovery) (s : IdentityStore)
      → x.account_id ≡ r.account_id
      → Stands s
      → Dead sid (end_recovery py now r s).1
  unfolding end_recovery ◌>>=◌ modify revoke_all audit
  end-Dead now r s same stands = rw (stands, same, eq_refl r.account_id) refl

  reset-Dead :
      (now : ℕ) (salt : String) (body : Fields) (s : IdentityStore) (r : Recovery)
      → (use_recovery py now salt body s).0 ≡ ok r
      → x.account_id ≡ r.account_id
      → Stands s
      → Dead sid (recovery_reset py now salt body s).1
  unfolding recovery_reset
  reset-Dead now salt body s r h same stands =
      let kept = (use_recovery-Keeping now salt body).kept s stands in
      let went = bind-ok (use_recovery py now salt body) (end_recovery py now) s r h in
      rw went (end-Dead now r (use_recovery py now salt body s).1 same kept)

-- A reset of the password ends all sessions of the account: if the recovery token was accepted for an
-- account, then the refresh token of every session that the account had is refused with PermissionError from
-- then on, whatever requests the service serves in between; provided that the identifiers that new_id()
-- gives to later sessions are new.
pub reset_ends_sessions :
    (py : Platform) (now later : ℕ) (salt : String) (body body' : Fields) (s : IdentityStore)
    (r : Recovery) (ids : NewIds) (sid : String) (x : Session) (claims : Fields)
    (rs : List IdentityRequest)
    → (use_recovery py now salt body s).0 ≡ ok r
    → s.sessions sid ≡ some x
    → x.account_id ≡ r.account_id
    → Brings py body' claims sid
    → All (Opens λ k. str_eq k sid ≡ false) rs
    → (refresh py later ids body' (after_requests py (recovery_reset py now salt body s).1 rs)).0
      ≡ err permission_error
reset_ends_sessions py now later salt body body' s r ids sid x claims rs h at same b o =
    refused py later ids body' (after_requests py (recovery_reset py now salt body s).1 rs) claims
      sid b
      (after_requests-Kept py (Dead sid) _ (dead_primitives py sid) rs
        (recovery_reset py now salt body s).1 o (reset-Dead py sid x now salt body s r h same at))
