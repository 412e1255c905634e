-- ===== src/Identity/Passwords.antt =====
-- services/identity.py: _set_password, recovery_request and recovery_reset. The salt of a hash and the raw
-- recovery token are arguments; the token is in the answer only outside of production.
use myota_platform.Base.{
  none, some, ◌∷◌, [], ℕ, String, Option, if◌then◌else◌, str_eq, ◌+◌, leb, not, ◌&&◌, ltb,
}
use myota_platform.Identity.Roles.{Platform}
use myota_platform.Common.Secret.{hash_secret}
use myota_platform.Identity.Store.{
  audit, IdentityStore, Handler, Session, Account, assign, seconds, Recovery,
}
use myota_platform.Identity.Cleanup.{cleanup_expired, is_set}
use myota_platform.Identity.Sessions.{account_for_email, body_text}
use myota_platform.Json.{Fields, get_value}
use myota_platform.Identity.Login.{set_credential}
use myota_platform.Base.Effect.{◌>>=◌, ◌>>◌, check, modify, lift, state, pure}
use myota_platform.Awards.Lifecycle.{require}
use myota_platform.Base.Text.{text_length}
use myota_platform.Base.Raise.{or_raise}
use myota_platform.Outbox.Routing.{as_text}
use myota_platform.Awards.Design.{value_error, type_error}

abbrev pub revoke_owned : ℕ → String → Option Session → Option Session
revoke_owned now account_id none = none
revoke_owned now account_id (some s) =
    if str_eq s.account_id account_id then some (record s { revoked_at = some now }) else some s

-- the open sessions of an account, and those that are revoked, are revoked now
unfoldable pub revoke_all : ℕ → String → IdentityStore → IdentityStore
revoke_all now account_id store = record store {
  sessions = λ k. revoke_owned now account_id (store.sessions k);
}

module _ (py : Platform) where
  unfoldable pub with_password : ℕ → String → String → String → IdentityStore → IdentityStore
  unfolding hash_secret
  with_password now salt account_id password store =
      set_credential account_id
        (record {
          password_hash = some (hash_secret py.crypto py.scrypt salt password);
          failed_attempts = 0;
          locked_until = none;
        })
        store

  -- _set_password
  unfoldable pub set_password : ℕ → String → String → String → Handler (Unit {0})
  unfolding with_password
  set_password now salt account_id password = do
    check (leb 12 (text_length password)) value_error
    modify (with_password now salt account_id password)

  unfoldable pub requested : ℕ → String → Option Account → IdentityStore → IdentityStore
  unfolding audit
  requested now raw none store = store
  requested now raw (some a) store = audit now "identity.recovery.requested.v1" a.id (record store {
    recovery =
        assign (py.crypto.sha256 raw)
          (record {
            account_id = a.id;
            expires_at = now + seconds py.recovery_seconds;
            used_at = none;
          })
          store.recovery;
  })

  unfoldable pub recovery_request : ℕ → String → Fields → Handler (Unit {0})
  unfolding cleanup_expired account_for_email requested
  recovery_request now raw body = do
    modify (cleanup_expired py now)
    lift (require body ("email" ∷ []))
    email ← lift (body_text "email" body)
    store ← state
    modify (requested now raw (account_for_email py email store))

  -- the part of recovery_reset that checks the token, sets the password and marks the token as used
  unfoldable pub use_recovery : ℕ → String → Fields → Handler Recovery
  unfolding set_password
  use_recovery now salt body = do
    lift (require body ("token" ∷ "newPassword" ∷ []))
    token ← lift (body_text "token" body)
    store ← state
    r ← lift (or_raise (store.recovery (py.crypto.sha256 token)) value_error)
    check (not (is_set r.used_at) && ltb now r.expires_at) value_error
    password ← lift (or_raise (as_text (get_value "newPassword" body)) type_error)
    set_password now salt r.account_id password
    modify (λ s. record s {
      recovery = assign (py.crypto.sha256 token) (record r { used_at = some now }) s.recovery;
    })
    pure r

  unfoldable pub end_recovery : ℕ → Recovery → Handler (Unit {0})
  unfolding revoke_all audit
  end_recovery now r = do
    modify (revoke_all now r.account_id)
    modify (audit now "identity.recovery.completed.v1" r.account_id)

  unfoldable pub recovery_reset : ℕ → String → Fields → Handler (Unit {0})
  unfolding use_recovery end_recovery
  recovery_reset now salt body = use_recovery now salt body >>= end_recovery now
