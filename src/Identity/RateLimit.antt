-- ===== src/Identity/RateLimit.antt =====
-- services/identity.py: _rate_limit, the limit on login attempts. The clock is in microseconds; the record
-- of an attempt that is refused stays.
use myota_platform.Base.Raise.{Result, ok, err, is_ok}
use myota_platform.Base.{
  ℕ, String, Option, if◌then◌else◌, List, ◌≤◌, some, ◌+◌, ltb, ◌∷◌, All, ◌<◌, arith, leb, str_eq,
  [], ◌≡◌, none, ◌&&◌, ◌-◌, String-cases, Option-cases, inr, inl,
}

pub record Window : Type 0 where
  pub window_start : ℕ
  pub count : ℕ

-- the bucket "rateLimits"
abbrev pub Limits : Type 0
Limits = String → Option Window

pub data RateError : Type 0 where
  too_many_attempts : RateError

-- MAX_LOGIN_ATTEMPTS and LOGIN_WINDOW_SECONDS, the latter in microseconds
module _ (max_attempts window : ℕ) where
  -- the record that is counted on: a missing one and one whose window is over start again
  unfoldable pub current_window : ℕ → Option Window → Window
  current_window current none = record { window_start = current; count = 0 }
  current_window current (some r) =
      if leb (r.window_start + window) current
      then record { window_start = current; count = 0 }
      else r

  unfoldable pub counted_window : ℕ → Option Window → Window
  unfolding current_window
  counted_window current found =
      let r = current_window current found in
      record { window_start = r.window_start; count = r.count + 1 }

  unfoldable pub rate_limit : ℕ → String → Limits → Result RateError (Unit {0}) × Limits
  unfolding counted_window
  rate_limit current key limits =
      let r = counted_window current (limits key) in
      (
        if ltb max_attempts r.count then err too_many_attempts else ok tt,
        λ k. if str_eq key k then some r else limits k,
      )

-- an attempt: its time and its key
pub record LoginAttempt : Type 0 where
  pub at : ℕ
  pub key : String

module _ (max_attempts window : ℕ) (k : String) where
  -- how many attempts under the key get through
  unfoldable pub passes : List LoginAttempt → Limits → ℕ
  passes [] limits = 0
  passes (a ∷ as_) limits =
      let (result, limits') = rate_limit max_attempts window a.at a.key limits in
      (if str_eq a.key k && is_ok result then 1 else 0) + passes as_ limits'

  -- the attempts fall into one span of the length of a window
  abbrev pub InSpan : ℕ → List LoginAttempt → Type 0
  InSpan s = All (λ a. (s ≤ a.at) × (a.at < s + window))

  -- what is left to the key
  unfoldable pub allowance : ℕ → Option Window → ℕ
  allowance s none = max_attempts
  allowance s (some r) =
      if leb s r.window_start
      then max_attempts - r.count
      else (max_attempts - r.count) + max_attempts

  step_allowance :
      (s : ℕ) (a : LoginAttempt) (limits : Limits)
      → s ≤ a.at
      → a.at < s + window
      → let (result, limits') = rate_limit max_attempts window a.at a.key limits in
        (if str_eq a.key k && is_ok result then 1 else 0) + allowance s (limits' k)
        ≤ allowance s (limits k)
  unfolding rate_limit counted_window current_window allowance
  step_allowance s a limits h l = elim (String-cases a.key k) [
    | inr (e, n) ↦ rw e (omega arith)
    | inl (e, p) ↦ elim (Option-cases (limits k)) [
      | inl m ↦ rw (e, p, m) (ground arith)
      | inr (r, m) ↦ rw (e, p, m) (ground arith)
    ]
  ]

  passes_bounded :
      (s : ℕ) (as_ : List LoginAttempt) (limits : Limits)
      → InSpan s as_
      → passes as_ limits ≤ allowance s (limits k)
  unfolding passes
  passes_bounded s [] limits h = omega arith
  passes_bounded s (a ∷ as_) limits h =
      let (result, limits') = rate_limit max_attempts window a.at a.key limits in
      let here = step_allowance s a limits h.0.0 h.0.1 in
      let rest = passes_bounded s as_ limits' h.1 in omega arith

-- Guessing is limited: of the attempts under one key that fall into a span of the length of a window, in
-- any order and with any attempts under other keys between them, at most twice MAX_LOGIN_ATTEMPTS get
-- through, and at most MAX_LOGIN_ATTEMPTS if the key had no record at first.
pub login_attempts_are_limited :
    (max_attempts window : ℕ) (k : String) (s : ℕ) (as_ : List LoginAttempt) (limits : Limits)
    → InSpan max_attempts window k s as_
    → (passes max_attempts window k as_ limits ≤ max_attempts + max_attempts)
      × (limits k ≡ none → passes max_attempts window k as_ limits ≤ max_attempts)
unfolding allowance
login_attempts_are_limited max_attempts window k s as_ limits h =
    let bound = passes_bounded max_attempts window k s as_ limits h in
    elim (Option-cases (limits k)) [
      | inl m ↦ (ground arith, λ e. ground arith)
      | inr (r, m) ↦ (ground arith, λ e. ground arith)
    ]
