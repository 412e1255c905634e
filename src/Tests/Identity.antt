-- ===== src/Tests/Identity.antt =====
-- The theorem on login attempts at concrete attempts.
use myota_platform.Base.{List, none, ◌∷◌, ◌≤◌, [], ◌+◌, ◌≡◌, arith}
use myota_platform.Identity.RateLimit.{passes, LoginAttempt, login_attempts_are_limited, Limits}

abbrev guesses : List LoginAttempt
guesses =
    record { at = 1000; key = "login:a:10.0.0.1" }
    ∷ record { at = 1200; key = "login:b:10.0.0.1" }
    ∷ record { at = 1500; key = "login:a:10.0.0.1" }
    ∷ record { at = 1800; key = "login:a:10.0.0.1" }
    ∷ []

abbrev no_limits : Limits
no_limits k = none

login_attempts_are_limited_example :
    (passes 2 900 "login:a:10.0.0.1" guesses no_limits ≤ 2 + 2)
    × (no_limits "login:a:10.0.0.1" ≡ none → passes 2 900 "login:a:10.0.0.1" guesses no_limits ≤ 2)
login_attempts_are_limited_example =
    login_attempts_are_limited 2 900 "login:a:10.0.0.1" 1000 guesses no_limits (
      (omega arith, omega arith),
      ((omega arith, omega arith), ((omega arith, omega arith), ((omega arith, omega arith), tt))),
    )
