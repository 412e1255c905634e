-- ===== src/Identity/LockOut.antt =====
-- The lock of an account after failed logins: services/identity.py.
use myota_platform.Identity.Primitives.{steps}
use myota_platform.Base.{
  true, false, some, ◌∷◌, [], ℕ, String, List, ◌≡◌, Option, refl, none, str_eq, ap, ◌∙◌, inl, inr,
  String-cases, All, ◌⊎◌, Bool-cases, any,
}
use myota_platform.Base.Raise.{err, ok, is_ok}
use myota_platform.Json.{Fields, get_value, text, Json, truthy}
use myota_platform.Identity.Roles.{Platform}
use myota_platform.Identity.Auth.{RequestContext}
use myota_platform.Identity.Store.{IdentityStore, Credential, Account, audit, Handler, seconds}
use myota_platform.Identity.Sessions.{NewIds, mint_tokens, account_for_email, is_global_operator}
use myota_platform.Identity.Login.{
  login, admit, authenticate, limit_rate, is_locked, set_credential, credential_for, fail_login,
  has_password, judge, within_limit, ids_of, login_key,
}
use myota_platform.Base.Text.{is_empty}
use myota_platform.Identity.Cleanup.{cleanup_expired}
use myota_platform.Base.Effect.{
  Keeps, modify, modify-Keeps, ◌>>=◌, lift, raise, onward, bind-Keeps, lift-Keeps, if-Keeps,
  pure-Keeps, raise-Keeps, lift_ok-Keeps, state, bind-err, pure, bind-ok,
}
use myota_platform.Awards.Design.{permission_error, value_error}
use myota_platform.Identity.RateLimit.{rate_limit}

-- an attempt to log in
pub record LoginRequest : Type 0 where
  pub now : ℕ
  pub context : RequestContext
  pub ids : NewIds
  pub body : Fields

-- a body with an e-mail and a password
pub record IsWritten (body : Fields) (email : String) : Type 0 where
  pub given : get_value "email" body ≡ text email
  pub not_empty : is_empty email ≡ false
  pub password : truthy (get_value "password" body) ≡ true

module _ (py : Platform) where
  unfoldable pub after_logins : IdentityStore → List LoginRequest → IdentityStore
  after_logins s [] = s
  after_logins s (q ∷ qs) = after_logins (login py q.now q.context q.ids q.body s).1 qs

  -- while the lock holds, a login of the account does not get through
  judge_locked :
      (now : ℕ) (ids : NewIds) (password : Json) (found : Option Account) (c : Credential)
      (s : IdentityStore)
      → is_locked now c ≡ true
      → judge py now ids password found c s ≡ (err permission_error, s)
  unfolding judge ◌>>=◌ lift
  judge_locked now ids password found c s l = rw (judge, l) refl

  pub credential_found :
      (a : Account) (c : Credential) (s : IdentityStore)
      → s.credentials a.id ≡ some c
      → credential_for (some a) s ≡ (ok c, set_credential a.id c s)
  unfolding credential_for
  credential_found a c s h = rw h refl

  authenticate_locked :
      (now : ℕ) (ids : NewIds) (password : Json) (a : Account) (c : Credential) (s : IdentityStore)
      → is_locked now c ≡ true
      → s.credentials a.id ≡ some c
      → authenticate py now ids password (some a) s
        ≡ (err permission_error, set_credential a.id c s)
  unfolding authenticate ◌>>=◌
  authenticate_locked now ids password a c s l h =
      ap (onward (judge py now ids password (some a))) (credential_found a c s h)
      ∙ judge_locked now ids password (some a) c (set_credential a.id c s) l

  module _ (id : String) (c : Credential) (accs : List Account) where
    -- the credential of the account, and the accounts
    abbrev pub Has : IdentityStore → Type 0
    Has s = (s.credentials id ≡ some c) × (s.accounts ≡ accs)

    abbrev pub Leaves : {A : Type 0} → Handler A → Type 0
    Leaves m = Keeps Has m

    cleaned-Has : (now : ℕ) → Leaves (modify (cleanup_expired py now))
    unfolding cleanup_expired
    cleaned-Has now = modify-Keeps Has _ (λ s h. h)

    limited-Has : (now : ℕ) (key : String) → Leaves (limit_rate py now key)
    unfolding limit_rate
    limited-Has now key = record { kept = λ s h. h }

    pub admit-Has : (now : ℕ) (p : RequestContext) (body : Fields) → Leaves (admit py now p body)
    unfolding admit
    admit-Has now p body = search (steps, cleaned-Has, limited-Has) depth 20

    no_account :
        (now : ℕ) (ids : NewIds) (password : Json) (s : IdentityStore)
        → Has s
        → Has (authenticate py now ids password none s).1
    unfolding authenticate judge ◌>>=◌ lift modify raise credential_for has_password fail_login
        audit
    no_account now ids password s h = h

    module _ (a : Account) (n : str_eq a.id id ≡ false) where
      credential-Has : (d : Credential) → Leaves (modify (set_credential a.id d))
      credential-Has d = modify-Keeps Has _ (λ s h. (rw n h.0, h.1))

      found-Has : Leaves (credential_for (some a))
      unfolding credential_for
      found-Has = record { kept = λ s h. (rw n h.0, h.1) }

      failed-Has : (now : ℕ) (d : Credential) → Leaves (modify (fail_login py now (some a) d))
      unfolding fail_login audit
      failed-Has now d = modify-Keeps Has _ (λ s h. (rw n h.0, h.1))

      audited-Has : (now : ℕ) (t k : String) → Leaves (modify (audit now t k))
      unfolding audit
      audited-Has now t k = modify-Keeps Has _ (λ s h. h)

      minted-Has : (now : ℕ) (ids : NewIds) (b : Account) → Leaves (mint_tokens py now ids b)
      unfolding mint_tokens
      minted-Has now ids b = record { kept = λ s h. h }

      judge-Has :
          (now : ℕ) (ids : NewIds) (password : Json) (d : Credential)
          → Leaves (judge py now ids password (some a) d)
      unfolding judge
      judge-Has now ids password d = bind-Keeps Has (lift-Keeps Has _) λ u.
          bind-Keeps Has (lift-Keeps Has _) λ right.
            bind-Keeps Has
              (if-Keeps Has right (pure-Keeps Has tt)
                (bind-Keeps Has (failed-Has now d) (λ u. raise-Keeps Has value_error)))
              λ u.
                lift_ok-Keeps Has _ a
                  (search (steps, credential-Has, audited-Has, minted-Has) depth 14)

      other_account :
          (now : ℕ) (ids : NewIds) (password : Json)
          → Leaves (authenticate py now ids password (some a))
      unfolding authenticate
      other_account now ids password = search (steps, found-Has, judge-Has) depth 14

    -- no login whatever changes the credential while the lock holds
    module _ (now : ℕ) (until : is_locked now c ≡ true) where
      authenticate-Has :
          (ids : NewIds) (password : Json) (found : Option Account)
          → Leaves (authenticate py now ids password found)
      authenticate-Has ids password none = record { kept = no_account now ids password }
      authenticate-Has ids password (some a) = elim (String-cases a.id id) [
        | inr (e, n) ↦ other_account a e now ids password
        | inl (e, p) ↦ record {
          kept = λ s h.
              let at_a : s.credentials a.id ≡ some c = rw p h.0 in
              rw (authenticate_locked now ids password a c s until at_a, e) (refl, h.1);
        }
      ]

      login-Has :
          (p : RequestContext) (ids : NewIds) (body : Fields) → Leaves (login py now p ids body)
      unfolding login
      login-Has p ids body =
          bind-Keeps Has (admit-Has now p body)
            λ found. authenticate-Has ids (get_value "password" body) found

  pub logins-Has :
      (id : String) (c : Credential) (accs : List Account) (s : IdentityStore)
      (qs : List LoginRequest)
      → All (λ q. is_locked q.now c ≡ true) qs
      → Has id c accs s
      → Has id c accs (after_logins s qs)
  unfolding after_logins
  logins-Has id c accs s [] l h = h
  logins-Has id c accs s (q ∷ qs) l h =
      logins-Has id c accs (login py q.now q.context q.ids q.body s).1 qs l.1
        ((login-Has id c accs q.now l.0 q.context q.ids q.body).kept s h)

  within_limit_lem :
      (now : ℕ) (p : RequestContext) (email : String) (found : Option Account) (s : IdentityStore)
      → ((within_limit py now p email found s).0 ≡ ok found)
        ⊎ ((within_limit py now p email found s).0 ≡ err permission_error)
  unfolding within_limit limit_rate ◌>>=◌ state pure
  within_limit_lem now p email found s =
      elim (Bool-cases (any (is_global_operator s) (ids_of found))) [
        | inl g ↦ inl (rw (within_limit, g) refl)
        | inr g ↦
            elim (Bool-cases (
              is_ok
                (rate_limit py.max_login_attempts (seconds py.login_window_seconds) now
                  (login_key py p email) s.rate_limits).0)) [
                    | inl r ↦ inl (rw (within_limit, g, r) refl)
                    | inr r ↦ inr (rw (within_limit, g, r) refl)
                  ]
      ]

  -- what comes of a written attempt up to the rate limit
  pub admitted :
      (now : ℕ) (p : RequestContext) (body : Fields) (email : String) (s : IdentityStore)
      → IsWritten body email
      → ((admit py now p body s).0 ≡ ok (account_for_email py email s))
        ⊎ ((admit py now p body s).0 ≡ err permission_error)
  unfolding admit ◌>>=◌ lift modify state cleanup_expired account_for_email
  admitted now p body email s w =
      rw (admit, w.given, w.not_empty, w.password)
        (within_limit_lem now p email (account_for_email py email (cleanup_expired py now s))
          (cleanup_expired py now s))

  -- a login of an account while its lock holds
  pub locked_login :
      (id : String) (c : Credential) (accs : List Account) (q : LoginRequest) (email : String)
      (a : Account) (s : IdentityStore)
      → Has id c accs s
      → is_locked q.now c ≡ true
      → IsWritten q.body email
      → account_for_email py email s ≡ some a
      → a.id ≡ id
      → (login py q.now q.context q.ids q.body s).0 ≡ err permission_error
  unfolding login
  locked_login id c accs q email a s h l w f e =
      let m = admit py q.now q.context q.body in
      let k = authenticate py q.now q.ids (get_value "password" q.body) in
      elim (admitted q.now q.context q.body email s w) [
        | inr x ↦ bind-err m k s permission_error x
        | inl x ↦
            let here : (m s).0 ≡ ok (some a) = rw (← f) x in
            let kept = (admit-Has id c accs q.now q.context q.body).kept s h in
            let at_a : (m s).1.credentials a.id ≡ some c = rw e kept.0 in
            ap (λ r. r.0)
              (bind-ok m k s (some a) here
                ∙ authenticate_locked q.now q.ids (get_value "password" q.body) a c (m s).1 l at_a)
      ]
