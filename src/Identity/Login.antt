-- ===== src/Identity/Login.antt =====
-- services/identity.py: login, refresh and logout.
use myota_platform.Base.Effect.{◌>>=◌, ◌>>◌, state, modify, lift, check, pure, raise}
use myota_platform.Base.{
  false, none, some, ◌∷◌, [], ℕ, String, Option, ◌+◌, Bool, if◌then◌else◌, ltb, leb, str_eq, List,
  any, ◌/◌, not, ◌&&◌,
}
use myota_platform.Base.Raise.{ok, err, Result, or_raise, is_ok}
use myota_platform.Identity.Store.{
  Credential, IdentityStore, Account, Session, audit, assign, Handler, seconds, account,
}
use myota_platform.Json.{Fields, text, Json, get_value, truthy}
use myota_platform.Identity.Roles.{Platform}
use myota_platform.Identity.RateLimit.{rate_limit}
use myota_platform.Common.Secret.{verify_secret}
use myota_platform.Identity.Auth.{RequestContext, auth}
use myota_platform.Outbox.Routing.{as_text, is_text}
use myota_platform.Base.Text.{concat, strip, is_empty}
use myota_platform.Identity.Cleanup.{cleanup_expired, is_set}
use myota_platform.Common.Token.{verify_token}
use myota_platform.Awards.Design.{permission_error, ServiceError, key_error, value_error}
use myota_platform.Identity.Sessions.{
  account_for_email, mint_tokens, NewIds, body_text, is_global_operator,
}
use myota_platform.Awards.Lifecycle.{require}

abbrev pub fresh_credential : Credential
fresh_credential = record { password_hash = none; failed_attempts = 0; locked_until = none }

-- a credential after a failed password; iso_after(900) ends the lock
unfoldable pub failed : ℕ → Credential → Credential
failed now c =
    let n = c.failed_attempts + 1 in
    record c {
      failed_attempts = n;
      locked_until = if leb 5 n then some (now + seconds 900) else c.locked_until;
    }

abbrev pub is_locked : ℕ → Credential → Bool
is_locked now c = elim c.locked_until [ none ↦ false | some t ↦ ltb now t ]

abbrev pub set_credential : String → Credential → IdentityStore → IdentityStore
set_credential id c store = record store { credentials = assign id c store.credentials }

abbrev pub or_fresh : Option Credential → Credential
or_fresh none = fresh_credential
or_fresh (some c) = c

-- the credential of an account, or the empty dictionary
abbrev pub found_credential : Option Account → IdentityStore → Credential
found_credential none store = fresh_credential
found_credential (some a) store = or_fresh (store.credentials a.id)

-- _credentials(account["id"]) if account else {}
unfoldable pub credential_for : Option Account → Handler Credential
credential_for none store = (ok fresh_credential, store)
credential_for (some a) store =
    let c = found_credential (some a) store in (ok c, set_credential a.id c store)

-- revokedAt is set, if there is a session
abbrev pub revoke_session : ℕ → Option Session → Option Session
revoke_session now none = none
revoke_session now (some s) = some (record s { revoked_at = some now })

unfoldable pub revoke : ℕ → String → IdentityStore → IdentityStore
revoke now sid store = record store {
  sessions = λ k. if str_eq sid k then revoke_session now (store.sessions k) else store.sessions k;
}

abbrev pub jti_of : Json → String
jti_of (text s) = s
jti_of _ = ""

-- revokedJti[claims.get("jti", "")] = {"expiresAt": claims.get("exp")}
unfoldable pub revoke_token : Fields → IdentityStore → IdentityStore
revoke_token claims store = record store {
  revoked_jti = assign (jti_of (get_value "jti" claims)) (get_value "exp" claims) store.revoked_jti;
}

abbrev pub sid_of : Fields → String
sid_of claims = jti_of (get_value "sid" claims)

-- the session that verified claims name
unfoldable pub session_of : Fields → IdentityStore → Option Session
session_of claims store = elim (as_text (get_value "sid" claims)) [
  | none ↦ none
  | some sid ↦ store.sessions sid
]

-- the session is there, is not revoked, and belongs to the token
abbrev pub is_usable : Option Session → String → Bool
is_usable none hash = false
is_usable (some s) hash = not (is_set s.revoked_at) && str_eq s.refresh_hash hash

abbrev pub ids_of : Option Account → List String
ids_of none = []
ids_of (some a) = a.id ∷ []

abbrev pub end_found : ℕ → Fields → Option Session → IdentityStore → IdentityStore
end_found now claims none store = store
end_found now claims (some s) store = revoke_token claims (revoke now (sid_of claims) store)

-- what logout does with the claims of a refresh token; PermissionError is passed over
unfoldable pub end_session : ℕ → Result ServiceError Fields → Handler (Unit {0})
unfolding session_of revoke_token revoke
end_session now (ok claims) store = (ok tt, end_found now claims (session_of claims store) store)
end_session now (err permission_error) store = (ok tt, store)
end_session now (err e) store = (err e, store)

abbrev pub end_access : Option Fields → IdentityStore → IdentityStore
end_access none store = store
end_access (some claims) store = revoke_token claims store

module _ (py : Platform) where
  -- _rate_limit
  unfoldable pub limit_rate : ℕ → String → Handler (Unit {0})
  unfolding rate_limit
  limit_rate now key store =
      let (result, limits) =
        rate_limit py.max_login_attempts (seconds py.login_window_seconds) now key
          store.rate_limits in
      (if is_ok result then ok tt else err permission_error, record store { rate_limits = limits })

  -- account.get("status") == "ACTIVE" and the password is right
  unfoldable pub has_password : Option Account → Credential → Json → Result ServiceError Bool
  unfolding verify_secret
  has_password none c password = ok false
  has_password (some a) c password =
      if is_text a.status "ACTIVE"
      then verify_secret py.crypto py.scrypt password
          (elim c.password_hash [ none ↦ "" | some h ↦ h ])
      else ok false

  abbrev pub login_key : RequestContext → String → String
  login_key p email =
      concat "login:" (concat (py.casefold (strip email)) (concat ":" p.remote_addr))

  -- what login does after a password that is not accepted
  unfoldable pub fail_login : ℕ → Option Account → Credential → IdentityStore → IdentityStore
  unfolding failed audit
  fail_login now none c store = audit now "identity.login.failed.v1" "system" store
  fail_login now (some a) c store =
      audit now "identity.login.failed.v1" a.id (set_credential a.id (failed now c) store)

  -- the rate limit, from which a global operator is free
  unfoldable pub within_limit :
      ℕ → RequestContext → String → Option Account → Handler (Option Account)
  unfolding limit_rate
  within_limit now p email found = do
    store ← state
    (if any (is_global_operator store) (ids_of found)
        then pure tt
        else limit_rate now (login_key p email))
    pure found

  -- login up to the rate limit: the account of the e-mail, if there is one
  unfoldable pub admit : ℕ → RequestContext → Fields → Handler (Option Account)
  unfolding cleanup_expired account_for_email within_limit
  admit now p body = do
    modify (cleanup_expired py now)
    lift (require body ("email" ∷ "password" ∷ []))
    email ← lift (body_text "email" body)
    store ← state
    within_limit now p email (account_for_email py email store)

  -- login once the credential is there
  unfoldable pub judge : ℕ → NewIds → Json → Option Account → Credential → Handler (String × String)
  unfolding has_password fail_login audit mint_tokens
  judge now ids password found c = do
    check (not (is_locked now c)) permission_error
    right ← lift (has_password found c password)
    (if right then pure tt else modify (fail_login now found c) >> raise value_error)
    a ← lift (or_raise found value_error)
    modify (set_credential a.id (record c { failed_attempts = 0; locked_until = none }))
    modify (audit now "identity.login.succeeded.v1" a.id)
    mint_tokens py now ids a

  unfoldable pub authenticate : ℕ → NewIds → Json → Option Account → Handler (String × String)
  unfolding credential_for judge
  authenticate now ids password found = credential_for found >>= judge now ids password found

  unfoldable pub login : ℕ → RequestContext → NewIds → Fields → Handler (String × String)
  unfolding admit authenticate
  login now p ids body = admit now p body >>= authenticate now ids (get_value "password" body)

  -- the tokens of a new session for the account that claims name
  unfoldable pub mint_for : ℕ → NewIds → Fields → Handler (String × String)
  unfolding account mint_tokens
  mint_for now ids claims = do
    sub ← lift (or_raise (as_text (get_value "sub" claims)) key_error)
    a ← account sub
    mint_tokens py now ids a

  unfoldable pub refresh : ℕ → NewIds → Fields → Handler (String × String)
  unfolding verify_token session_of revoke mint_for
  refresh now ids body = do
    lift (require body ("refreshToken" ∷ []))
    token ← lift (body_text "refreshToken" body)
    claims ← lift (verify_token py.crypto (now / 1000000) token (some "refresh"))
    store ← state
    check (is_usable (session_of claims store) (py.crypto.sha256 token)) permission_error
    modify (revoke now (sid_of claims))
    mint_for now ids claims

  unfoldable pub logout : ℕ → RequestContext → Fields → Handler (Unit {0})
  unfolding verify_token end_session auth
  logout now p body = do
    (if truthy (get_value "refreshToken" body)
        then (lift (body_text "refreshToken" body) >>= λ token.
            end_session now (verify_token py.crypto (now / 1000000) token (some "refresh")))
        else pure tt)
    (if is_empty p.authorization
        then pure tt
        else auth py now p [] none >>= λ claims. modify (end_access claims))
