-- ===== src/Identity/Revocation.antt =====
-- A session of services/identity.py that has ended stays ended.
use myota_platform.Base.{
  refl, true, false, none, some, inl, inr, Option, String, Bool, ◌≡◌, ℕ, Option-cases, Bool-cases,
  str_eq, ◌-◌,
}
use myota_platform.Identity.Roles.{Platform}
use myota_platform.Identity.Store.{Session, IdentityStore, Account, seconds}
use myota_platform.Identity.Cleanup.{cleanup_expired, is_set, is_before}
use myota_platform.Identity.Login.{revoke}
use myota_platform.Identity.Passwords.{revoke_all}
use myota_platform.Identity.Sessions.{mint_tokens, NewIds}
use myota_platform.Base.Effect.{Keeps}

abbrev pub is_dead : Option Session → Bool
is_dead none = true
is_dead (some s) = is_set s.revoked_at

-- there is no open session under the identifier
abbrev pub Dead : String → IdentityStore → Type 0
Dead sid store = is_dead (store.sessions sid) ≡ true

module _ (py : Platform) (sid : String) where
  pub cleanup-Dead :
      (now : ℕ) (s : IdentityStore) → Dead sid s → Dead sid (cleanup_expired py now s)
  unfolding cleanup_expired
  cleanup-Dead now s d = elim (Option-cases (s.sessions sid)) [
    | inl e ↦ rw (cleanup_expired, e) refl
    | inr (x, e) ↦ elim (Bool-cases (is_before x.revoked_at (now - seconds py.refresh_seconds))) [
      | inl b ↦ rw (cleanup_expired, e, b) refl
      | inr b ↦ rw (cleanup_expired, e, b) (rw e at d)
    ]
  ]

  pub revoke-Dead :
      (now : ℕ) (k : String) (s : IdentityStore) → Dead sid s → Dead sid (revoke now k s)
  unfolding revoke
  revoke-Dead now k s d = elim (Bool-cases (str_eq k sid)) [
    | inl e ↦ elim (Option-cases (s.sessions sid)) [
      | inl m ↦ rw (revoke, e, m) refl
      | inr (x, m) ↦ rw (revoke, e, m) refl
    ]
    | inr e ↦ rw (revoke, e) d
  ]

  pub revoke_all-Dead :
      (now : ℕ) (k : String) (s : IdentityStore) → Dead sid s → Dead sid (revoke_all now k s)
  unfolding revoke_all
  revoke_all-Dead now k s d = elim (Option-cases (s.sessions sid)) [
    | inl m ↦ rw (revoke_all, m) refl
    | inr (x, m) ↦ elim (Bool-cases (str_eq x.account_id k)) [
      | inl e ↦ rw (revoke_all, m, e) refl
      | inr e ↦ rw (revoke_all, m, e) (rw m at d)
    ]
  ]

  pub mint-Dead :
      (now : ℕ) (ids : NewIds) (a : Account)
      → str_eq ids.session_id sid ≡ false
      → Keeps (Dead sid) (mint_tokens py now ids a)
  unfolding mint_tokens
  mint-Dead now ids a n = record { kept = λ s d. rw (mint_tokens, n) d }
