-- ===== src/Identity/SingleUse.antt =====
-- A refresh token of services/identity.py works once, and no session outlives a reset of the password.
use myota_platform.Base.{
  arith, String, ◌≡◌, false, some, List, ℕ, refl, inl, inr, ◌/◌, Option-cases, str_eq, Bool-cases,
  eq_refl, All,
}
use myota_platform.Identity.Roles.{Platform}
use myota_platform.Identity.Store.{IdentityStore}
use myota_platform.Identity.Revocation.{Dead}
use myota_platform.Base.Raise.{ok, err}
use myota_platform.Json.{Fields, text, get_value, Json}
use myota_platform.Identity.Login.{refresh, session_of, is_usable, revoke, sid_of, jti_of}
use myota_platform.Base.Effect.{lift, state, ◌>>=◌, modify}
use myota_platform.Outbox.Routing.{as_text}
use myota_platform.Common.Token.{verify_token, read_token}
use myota_platform.Identity.Sessions.{NewIds}
use myota_platform.Awards.Design.{permission_error}
use myota_platform.Common.Signed.{verify-read, read-empty}
use myota_platform.Identity.Preserved.{mint_for-Keeps}
use myota_platform.Identity.Requests.{IdentityRequest, after_requests}
use myota_platform.Identity.DeadSessions.{dead_primitives}
use myota_platform.Identity.Kept.{Opens, after_requests-Kept}

jti_of-text : (v : Json) (sid : String) → as_text v ≡ some sid → jti_of v ≡ sid
jti_of-text (text s) sid h = cc
jti_of-text _ sid h = ground arith

revoked-Dead : (now : ℕ) (sid : String) (s : IdentityStore) → Dead sid (revoke now sid s)
unfolding revoke
revoked-Dead now sid s = elim (Option-cases (s.sessions sid)) [
  | inl m ↦ rw (revoke, eq_refl sid, m) refl
  | inr (x, m) ↦ rw (revoke, eq_refl sid, m) refl
]

-- The body brings a refresh token that the service has signed, with its claims.
pub record Brings (py : Platform) (body : Fields) (claims : Fields) (sid : String) : Type 0 where
  pub token : String
  pub given : get_value "refreshToken" body ≡ text token
  pub reads : read_token py.crypto token (some "refresh") ≡ ok claims
  pub names : as_text (get_value "sid" claims) ≡ some sid

module _ (py : Platform) (now : ℕ) (ids : NewIds) (body : Fields) (s : IdentityStore) where
  -- a refresh whose token is signed and not yet expired
  refresh_usable :
      (claims : Fields) (sid : String) (b : Brings py body claims sid)
      → verify_token py.crypto (now / 1000000) b.token (some "refresh") ≡ ok claims
      → is_usable (s.sessions sid) (py.crypto.sha256 b.token) ≡ false
      → (refresh py now ids body s).0 ≡ err permission_error
  unfolding refresh ◌>>=◌ lift state session_of
  refresh_usable claims sid b v u =
      rw
        (
          refresh,
          b.given,
          read-empty py.crypto b.token (some "refresh") claims b.reads,
          v,
          session_of,
          b.names,
          u,
        )
        refl

  refresh_expired :
      (claims : Fields) (sid : String) (b : Brings py body claims sid)
      → verify_token py.crypto (now / 1000000) b.token (some "refresh") ≡ err permission_error
      → (refresh py now ids body s).0 ≡ err permission_error
  unfolding refresh ◌>>=◌ lift state
  refresh_expired claims sid b v =
      rw (refresh, b.given, read-empty py.crypto b.token (some "refresh") claims b.reads, v) refl

  -- a refresh with the token of a session that has ended
  pub refused :
      (claims : Fields) (sid : String)
      → Brings py body claims sid
      → Dead sid s
      → (refresh py now ids body s).0 ≡ err permission_error
  refused claims sid b d =
      elim (verify-read py.crypto (now / 1000000) b.token (some "refresh") claims b.reads) [
        | inr v ↦ refresh_expired claims sid b v
        | inl v ↦
            refresh_usable claims sid b v (elim (Option-cases (s.sessions sid)) [
              | inl m ↦ rw m refl
              | inr (x, m) ↦ ground arith
            ])
      ]

  -- a refresh that succeeds has found its session open, and ends it
  ended :
      (claims : Fields) (sid : String) (t : String × String)
      → Brings py body claims sid
      → str_eq ids.session_id sid ≡ false
      → (refresh py now ids body s).0 ≡ ok t
      → Dead sid (refresh py now ids body s).1
  unfolding refresh ◌>>=◌ lift state modify session_of
  ended claims sid t b n h =
      elim (verify-read py.crypto (now / 1000000) b.token (some "refresh") claims b.reads) [
        | inr v ↦ let no_ = refresh_expired claims sid b v in cc
        | inl v ↦ elim (Bool-cases (is_usable (s.sessions sid) (py.crypto.sha256 b.token))) [
          | inr u ↦ let no_ = refresh_usable claims sid b v u in cc
          | inl u ↦
              let gone : Dead sid (revoke now (sid_of claims) s) =
                rw (jti_of-text (get_value "sid" claims) sid b.names) (revoked-Dead now sid s) in
              rw
                (
                  refresh,
                  b.given,
                  read-empty py.crypto b.token (some "refresh") claims b.reads,
                  v,
                  session_of,
                  b.names,
                  u,
                )
                ((mint_for-Keeps py (Dead sid) _ (dead_primitives py sid) now ids claims n).kept
                  (revoke now (sid_of claims) s) gone)
        ]
      ]

-- A refresh token works once: after a refresh that succeeds, and whatever requests the service then serves,
-- the same token is refused with PermissionError, at any time and with any other request data; provided
-- that the identifiers that new_id() gives to later sessions are new.
pub refresh_works_once :
    (py : Platform) (now later : ℕ) (ids ids' : NewIds) (body body' : Fields) (s : IdentityStore)
    (claims : Fields) (sid : String) (t : String × String) (rs : List IdentityRequest)
    → Brings py body claims sid
    → Brings py body' claims sid
    → (refresh py now ids body s).0 ≡ ok t
    → str_eq ids.session_id sid ≡ false
    → All (Opens λ k. str_eq k sid ≡ false) rs
    → (refresh py later ids' body' (after_requests py (refresh py now ids body s).1 rs)).0
      ≡ err permission_error
refresh_works_once py now later ids ids' body body' s claims sid t rs b b' h n o =
    refused py later ids' body' (after_requests py (refresh py now ids body s).1 rs) claims sid b' (
      after_requests-Kept py (Dead sid) _ (dead_primitives py sid) rs (refresh py now ids body s).1
        o (ended py now ids body s claims sid t b n h))
