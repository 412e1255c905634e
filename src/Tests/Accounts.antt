-- ===== src/Tests/Accounts.antt =====
-- The theorems on accounts, sessions and callsigns at concrete data.
use myota_platform.Base.{
  refl, false, some, arith, ◌∷◌, [], List, ℕ, String, ◌≡◌, find_row, true, all,
}
use myota_platform.Base.Raise.{ok, err}
use myota_platform.Identity.Primary.{
  Good, CallsignRequest, after_callsigns, add, retire, make_primary, has_active_primary, is_proper,
}
use myota_platform.Identity.Callsigns.{replaced_primary, without_callsign}
use myota_platform.Json.{Fields, text, field, end, null, get_value, get_or, has_key}
use myota_platform.Common.Token.{
  read_token, split_three, cut, load_part, as_claims, has_type, header_of,
}
use myota_platform.Identity.Login.{refresh, has_password, login}
use myota_platform.Identity.Passwords.{use_recovery, recovery_reset}
use myota_platform.Identity.LockOut.{IsWritten, LoginRequest, after_logins}
use myota_platform.Identity.Sessions.{account_for_email}
use myota_platform.Identity.Requests.{IdentityRequest, log_out, renew, after_requests, log_in}
use myota_platform.Tests.Platform.{
  sample_platform, sample_store, sample_account, new_ids, newer_ids, inside, sample_credential,
  sample_recovery, sample_claims, sample_session, second_sign, first_sign,
}
use myota_platform.Identity.ActivePrimary.{primary_stays_active}
use myota_platform.Awards.Design.{permission_error, value_error}
use myota_platform.Identity.SingleUse.{refresh_works_once, Brings}
use myota_platform.Identity.PasswordReset.{reset_ends_sessions}
use myota_platform.Identity.FifthFailure.{fifth_failure_locks_out}
use myota_platform.Identity.Retired.{own_replacement_is_accepted}
use myota_platform.Base.Effect.{◌>>=◌, lift, state, modify, pure, raise}
use myota_platform.Base.Text.{strip}

abbrev callsign_calls : List CallsignRequest
callsign_calls =
    add 100 inside "c3" "a1" (field "callsign" (text " DL3NEW ") end)
    ∷ retire 200 inside "a1" "c1" (field "newPrimaryCallsignId" (text "c3") end)
    ∷ make_primary 300 inside "a1" (field "callsignId" (text "c2") end)
    ∷ []

callsigns_proper : all is_proper callsign_calls ≡ true
unfolding get_or get_value
callsigns_proper = refl

primary_stays_active_example : Good (after_callsigns sample_platform sample_store callsign_calls)
primary_stays_active_example =
    primary_stays_active sample_platform callsign_calls sample_store callsigns_proper (refl, tt)

own_replacement_is_accepted_example :
    (replaced_primary "c1" (text "c1") sample_account ≡ ok (some "c1"))
    × (has_active_primary (without_callsign 100 "c1" null (some "c1") sample_account) ≡ false)
own_replacement_is_accepted_example =
    own_replacement_is_accepted 100 "c1" null sample_account [] (second_sign ∷ []) first_sign refl
      refl refl refl refl tt (refl, tt)

-- a body with the refresh token of the session
abbrev renewal : Fields
renewal = field "refreshToken" (text "H.C.D") end

renewal-Brings : Brings sample_platform renewal sample_claims "s1"
unfolding read_token split_three cut load_part as_claims has_type get_value header_of
renewal-Brings = record { token = "H.C.D"; given = refl; reads = refl; names = refl }

-- requests after a refresh or a reset
abbrev later_calls : List IdentityRequest
later_calls =
    log_out 1500000 inside end
    ∷ renew 1600000 newer_ids renewal
    ∷ log_in 1700000 inside newer_ids
        (field "email" (text "ada@example.org") (field "password" (text "right") end))
    ∷ []

renewed : (refresh sample_platform 1000000 new_ids renewal sample_store).0 ≡ ok ("H.C.D", "H.C.D")
unfolding refresh ◌>>=◌ lift get_value get_or state modify find_row has_key
renewed = refl

refresh_works_once_example :
    (refresh sample_platform 2000000 newer_ids renewal (
      after_requests sample_platform
        (refresh sample_platform 1000000 new_ids renewal sample_store).1
        later_calls)).0
    ≡ err permission_error
refresh_works_once_example =
    refresh_works_once sample_platform 1000000 2000000 new_ids newer_ids renewal renewal
      sample_store sample_claims "s1" ("H.C.D", "H.C.D") later_calls renewal-Brings renewal-Brings
      renewed refl (tt, (refl, (refl, tt)))

abbrev new_password : Fields
new_password = field "token" (text "recover") (field "newPassword" (text "a longer password") end)

recovered :
    (use_recovery sample_platform 1000000 "salt" new_password sample_store).0 ≡ ok sample_recovery
unfolding use_recovery ◌>>=◌ lift get_value state modify pure
recovered = refl

reset_ends_sessions_example :
    (refresh sample_platform 2000000 newer_ids renewal (
      after_requests sample_platform
        (recovery_reset sample_platform 1000000 "salt" new_password sample_store).1
        later_calls)).0
    ≡ err permission_error
reset_ends_sessions_example =
    reset_ends_sessions sample_platform 1000000 2000000 "salt" new_password renewal sample_store
      sample_recovery newer_ids "s1" sample_session sample_claims later_calls recovered refl refl
      renewal-Brings (tt, (refl, (refl, tt)))

abbrev attempt : ℕ → String → LoginRequest
attempt now password = record {
  now = now;
  context = inside;
  ids = new_ids;
  body = field "email" (text "ada@example.org") (field "password" (text password) end);
}

attempt-IsWritten : (now : ℕ) → IsWritten (attempt now "wrong").body "ada@example.org"
unfolding get_value
attempt-IsWritten now = record { given = refl; not_empty = refl; password = refl }

right-IsWritten : IsWritten (attempt 5000000 "right").body "ada@example.org"
unfolding get_value
right-IsWritten = record { given = refl; not_empty = refl; password = refl }

found_ada : account_for_email sample_platform "ada@example.org" sample_store ≡ some sample_account
unfolding account_for_email strip
found_ada = refl

wrong_password :
    has_password sample_platform (some sample_account) sample_credential (text "wrong") ≡ ok false
unfolding has_password
wrong_password = refl

fifth_fails :
    (login sample_platform 1000000 inside new_ids (attempt 1000000 "wrong").body sample_store).0
    ≡ err value_error
unfolding login ◌>>=◌ modify lift get_value state strip pure raise
fifth_fails = refl

fifth_failure_locks_out_example :
    (login sample_platform 5000000 inside new_ids (attempt 5000000 "right").body (
      after_logins sample_platform
        (login sample_platform 1000000 inside new_ids (attempt 1000000 "wrong").body sample_store).1
        (attempt 2000000 "wrong" ∷ []))).0
    ≡ err permission_error
unfolding get_value
fifth_failure_locks_out_example =
    fifth_failure_locks_out sample_platform (attempt 1000000 "wrong") (attempt 5000000 "right")
      (attempt 2000000 "wrong" ∷ []) "ada@example.org" "ada@example.org" sample_store sample_account
      sample_credential (attempt-IsWritten 1000000) found_ada refl (omega arith) refl wrong_password
      fifth_fails (omega arith, (omega arith, tt)) right-IsWritten found_ada
