-- ===== src/Identity/Cleanup.antt =====
-- services/identity.py: cleanup_expired. An expiry of a revoked token comes from verified claims, so that
-- int() reads it; the count of what is removed is left out.
use myota_platform.Base.{
  true, false, none, some, Bool, Option, String, ℕ, if◌then◌else◌, ltb, leb, ◌/◌, ◌||◌, ◌-◌, keep,
  not,
}
use myota_platform.Identity.Roles.{Platform}
use myota_platform.Identity.Store.{IdentityStore, seconds}
use myota_platform.Json.{Json}

-- the entries that do not meet a test stay
abbrev pub dropped {ℓ} : {A : Type ℓ} → (A → Bool) → Option A → Option A
dropped p none = none
dropped p (some v) = if p v then none else some v

abbrev pub without {ℓ} : {A : Type ℓ} → (A → Bool) → (String → Option A) → String → Option A
without p d k = dropped p (d k)

abbrev pub is_set : Option ℕ → Bool
is_set none = false
is_set (some t) = true

abbrev pub is_before : Option ℕ → ℕ → Bool
is_before none t = false
is_before (some u) t = ltb u t

module _ (py : Platform) where
  abbrev pub is_past : Json → ℕ → Bool
  is_past v current = elim (py.crypto.int_of v) [ none ↦ false | some t ↦ leb t current ]

  unfoldable pub cleanup_expired : ℕ → IdentityStore → IdentityStore
  cleanup_expired now store =
      let current = now / 1000000 in
      record store {
        recovery = without (λ r. is_set r.used_at || leb r.expires_at now) store.recovery;
        sessions =
            without (λ s. is_before s.revoked_at (now - seconds py.refresh_seconds)) store.sessions;
        revoked_jti = without (λ v. is_past v current) store.revoked_jti;
        rate_limits =
            without (λ w. ltb (seconds py.login_window_seconds) (seconds current - w.window_start))
              store.rate_limits;
        security_events =
            keep (λ e. not (ltb e.0 (now - seconds py.security_event_retention_seconds)))
              store.security_events;
      }
