-- ===== src/Tests/Platform.antt =====
-- A concrete platform and a concrete store of accounts, for the tests.
use myota_platform.Base.{false, none, some, ◌∷◌, [], String, Option, if◌then◌else◌, str_eq, ℕ}
use myota_platform.Json.{Fields, Json, field, text, number, has_key, null, end, object}
use myota_platform.Common.Token.{Crypto, header_of}
use myota_platform.Identity.Roles.{Platform}
use myota_platform.Identity.Store.{Callsign, Account, Credential, Session, Recovery, IdentityStore}
use myota_platform.Identity.Auth.{RequestContext}
use myota_platform.Identity.Sessions.{NewIds}

-- the claims of a refresh token of the session "s1"
abbrev pub sample_claims : Fields
sample_claims = field "sub" (text "a1") (
    field "sid" (text "s1") (
      field "jti" (text "j1") (
        field "iat" (number 0)
          (field "exp" (number 5000) (field "tokenType" (text "refresh") end)))))

abbrev pub sample_loads : String → Option Json
sample_loads s =
    if str_eq s "H"
    then some (object (header_of "refresh"))
    else if str_eq s "C"
    then some (object sample_claims)
    else none

abbrev pub sample_int : Json → Option ℕ
sample_int (number n) = some n
sample_int _ = none

-- a header is written H and claims are written C
abbrev pub sample_crypto : Crypto
sample_crypto = record {
  b64 = λ s. s;
  unb64 = λ s. some s;
  dumps = λ d. if has_key "alg" d then "H" else "C";
  loads = sample_loads;
  digest = λ s. "D";
  sha256 = λ s. s;
  int_of = sample_int;
}

abbrev pub sample_platform : Platform
sample_platform = record {
  crypto = sample_crypto;
  casefold = λ s. s;
  lower = λ s. s;
  upper = λ s. s;
  shown = λ v. "";
  iso_of = λ t. "2026-01-02T03:04:05.000006";
  scrypt = λ value salt. value;
  access_seconds = 900;
  refresh_seconds = 2592000;
  recovery_seconds = 900;
  max_login_attempts = 5;
  login_window_seconds = 900;
  security_event_retention_seconds = 7776000;
}

abbrev pub first_sign : Callsign
first_sign = record {
  id = "c1";
  value = "DL1ABC";
  status = text "VERIFIED";
  source = text "self-asserted";
  verification_source = text "manual-review";
  verified_at = some 5;
  valid_from = null;
  valid_to = null;
  evidence_ids = [];
  created_at = 1;
  updated_at = 5;
}

abbrev pub second_sign : Callsign
second_sign = record first_sign { id = "c2"; value = "DL2XYZ" }

abbrev pub sample_account : Account
sample_account = record {
  id = "a1";
  display_name = text "Ada";
  email = some "ada@example.org";
  participation_type = text "OPERATOR";
  status = text "ACTIVE";
  callsigns = first_sign ∷ second_sign ∷ [];
  primary_callsign_id = some "c1";
  created_at = 1;
  updated_at = 1;
}

-- four failures in a row, and the password "right"
abbrev pub sample_credential : Credential
sample_credential = record {
  password_hash = some "scrypt$salt$right";
  failed_attempts = 4;
  locked_until = none;
}

abbrev pub sample_session : Session
sample_session = record {
  account_id = "a1";
  refresh_hash = "H.C.D";
  access_jti = "j0";
  created_at = 1;
  expires_at = 5000000000;
  revoked_at = none;
}

abbrev pub sample_recovery : Recovery
sample_recovery = record { account_id = "a1"; expires_at = 900000000; used_at = none }

abbrev pub only {ℓ} : {A : Type ℓ} → String → A → String → Option A
only k v j = if str_eq k j then some v else none

abbrev pub sample_store : IdentityStore
sample_store = record {
  accounts = sample_account ∷ [];
  credentials = only "a1" sample_credential;
  sessions = only "s1" sample_session;
  recovery = only "recover" sample_recovery;
  revoked_jti = λ k. none;
  rate_limits = λ k. none;
  roles = [];
  role_definitions = λ k. none;
  evidence = [];
  security_events = [];
  events = [];
}

-- a call within the process
abbrev pub inside : RequestContext
inside = record { http = false; authorization = ""; remote_addr = "10.0.0.1" }

abbrev pub new_ids : NewIds
new_ids = record { session_id = "s2"; access_jti = "j2"; refresh_jti = "j3" }

abbrev pub newer_ids : NewIds
newer_ids = record { session_id = "s3"; access_jti = "j4"; refresh_jti = "j5" }
