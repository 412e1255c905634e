-- ===== src/Identity/FifthFailure.antt =====
-- The fifth failed password in a row locks the account: services/identity.py.
use myota_platform.Base.{
  refl, true, false, some, arith, ◌∷◌, ℕ, List, ◌≤◌, String, ◌<◌, ◌+◌, ◌≡◌, ap, eq_refl, All, ◌∙◌,
  inl, inr, All-map,
}
use myota_platform.Base.Raise.{ok, err}
use myota_platform.Identity.Roles.{Platform}
use myota_platform.Identity.Login.{
  failed, login, judge, authenticate, fail_login, is_locked, has_password, set_credential, admit,
}
use myota_platform.Identity.LockOut.{
  LoginRequest, IsWritten, Has, after_logins, credential_found, admitted, admit-Has, logins-Has,
  locked_login,
}
use myota_platform.Identity.Sessions.{NewIds, account_for_email}
use myota_platform.Identity.Store.{Credential, Account, IdentityStore, audit, seconds}
use myota_platform.Json.{Json, get_value}
use myota_platform.Base.Effect.{lift, modify, raise, onward, ◌>>=◌, bind-err, bind-ok}
use myota_platform.Awards.Design.{value_error, permission_error}

module _ (py : Platform) (now : ℕ) (ids : NewIds) (password : Json) (a : Account)
    (c : Credential) where
  judge_failed :
      (s : IdentityStore)
      → is_locked now c ≡ false
      → has_password py (some a) c password ≡ ok false
      → judge py now ids password (some a) c s ≡ (err value_error, fail_login py now (some a) c s)
  unfolding judge ◌>>=◌ lift modify raise
  judge_failed s l w = rw (judge, l, w) refl

  authenticate_failed :
      (s : IdentityStore)
      → is_locked now c ≡ false
      → has_password py (some a) c password ≡ ok false
      → s.credentials a.id ≡ some c
      → authenticate py now ids password (some a) s
        ≡ (err value_error, fail_login py now (some a) c (set_credential a.id c s))
  unfolding authenticate ◌>>=◌
  authenticate_failed s l w h =
      ap (onward (judge py now ids password (some a))) (credential_found py a c s h)
      ∙ judge_failed (set_credential a.id c s) l w

  failed-Has :
      (accs : List Account) (s : IdentityStore)
      → s.accounts ≡ accs
      → Has py a.id (failed now c) accs (fail_login py now (some a) c (set_credential a.id c s))
  unfolding fail_login audit
  failed-Has accs s h = (rw (eq_refl a.id) refl, h)

failed_locks :
    (now later : ℕ) (c : Credential)
    → 4 ≤ c.failed_attempts
    → later < now + seconds 900
    → is_locked later (failed now c) ≡ true
unfolding failed
failed_locks now later c h l = ground arith

-- what a login with a wrong password leaves
failed-login-Has :
    (py : Platform) (q : LoginRequest) (email : String) (s : IdentityStore) (a : Account)
    (c : Credential)
    → IsWritten q.body email
    → account_for_email py email s ≡ some a
    → s.credentials a.id ≡ some c
    → is_locked q.now c ≡ false
    → has_password py (some a) c (get_value "password" q.body) ≡ ok false
    → (login py q.now q.context q.ids q.body s).0 ≡ err value_error
    → Has py a.id (failed q.now c) s.accounts (login py q.now q.context q.ids q.body s).1
unfolding login
failed-login-Has py q email s a c w f h l wrong failed_ =
    let m = admit py q.now q.context q.body in
    let k = authenticate py q.now q.ids (get_value "password" q.body) in
    elim (admitted py q.now q.context q.body email s w) [
      | inr x ↦ let no_ = bind-err m k s permission_error x in cc
      | inl x ↦
          let here : (m s).0 ≡ ok (some a) = rw (← f) x in
          let kept = (admit-Has py a.id c s.accounts q.now q.context q.body).kept s (h, refl) in
          let went =
            bind-ok m k s (some a) here
            ∙ authenticate_failed py q.now q.ids (get_value "password" q.body) a c (m s).1 l wrong
                kept.0 in
          rw went
            (failed-Has py q.now q.ids (get_value "password" q.body) a c s.accounts (m s).1 kept.1)
    ]

account_for_email-same :
    (py : Platform) (email : String) (s t : IdentityStore)
    → s.accounts ≡ t.accounts
    → account_for_email py email s ≡ account_for_email py email t
unfolding account_for_email
account_for_email-same py email s t e = rw e refl

-- The fifth failure locks an account: after a login with a wrong password, where at least four failures in a
-- row stood before it, every later login of the account raises PermissionError for 900 seconds, even with
-- the right password, whatever other logins (of this account or of others) are tried in between.
pub fifth_failure_locks_out :
    (py : Platform) (q last : LoginRequest) (qs : List LoginRequest) (email email' : String)
    (s : IdentityStore) (a : Account) (c : Credential)
    → IsWritten q.body email
    → account_for_email py email s ≡ some a
    → s.credentials a.id ≡ some c
    → 4 ≤ c.failed_attempts
    → is_locked q.now c ≡ false
    → has_password py (some a) c (get_value "password" q.body) ≡ ok false
    → (login py q.now q.context q.ids q.body s).0 ≡ err value_error
    → All (λ r. r.now < q.now + seconds 900) (last ∷ qs)
    → IsWritten last.body email'
    → account_for_email py email' s ≡ some a
    → (login py last.now last.context last.ids last.body
        (after_logins py (login py q.now q.context q.ids q.body s).1 qs)).0
      ≡ err permission_error
fifth_failure_locks_out py q last qs email email' s a c w f h four l wrong failed_ before w' f' =
    let first = (login py q.now q.context q.ids q.body s).1 in
    let d = failed q.now c in
    let later = after_logins py first qs in
    let has =
      logins-Has py a.id d s.accounts first qs
        (All-map (λ r. r.now < q.now + seconds 900) (λ r. is_locked r.now d ≡ true) qs
          (λ r b. failed_locks q.now r.now c four b) before.1)
        (failed-login-Has py q email s a c w f h l wrong failed_) in
    locked_login py a.id d s.accounts last email' a later has
      (failed_locks q.now last.now c four before.0) w'
      (account_for_email-same py email' later s has.1 ∙ f') refl
