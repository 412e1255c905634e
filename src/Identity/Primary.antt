-- ===== src/Identity/Primary.antt =====
-- The primary callsign of an account under the handlers of services/identity.py.
use myota_platform.Base.{
  true, false, none, some, inl, inr, arith, ◌∷◌, [], ℕ, Bool, String, update_row, List, not, All,
  ◌≡◌, ◌++◌, ◌||◌, str_eq, ◌&&◌, ◌⊎◌, refl, String-cases, Option, find_row-All, update_row-All,
}
use myota_platform.Identity.Store.{
  Account, IdentityStore, Callsign, account, put_account, event, Handler,
}
use myota_platform.Identity.Roles.{Platform}
use myota_platform.Identity.Callsigns.{
  is_active, add_callsign, set_primary, add_evidence, verify_callsign, retire_callsign, is_retired,
  change_callsign,
}
use myota_platform.Identity.Auth.{RequestContext, auth}
use myota_platform.Json.{Fields, get_or, text, get_value}
use myota_platform.Outbox.Routing.{is_text}
use myota_platform.Base.Effect.{
  Ensures, modify, Keeps-Ensures, modify-Ensures, if-Keeps, lift-Keeps, bind-Keeps, state-Keeps,
  pure-Keeps, bind-Ensures, lift, lift-Ensures, ◌>>=◌,
}
use myota_platform.Base.Raise.{ok, Result}
use myota_platform.Awards.Design.{ServiceError}

-- the primary callsign is one of the account's callsigns and is not retired
abbrev pub has_active_primary : Account → Bool
has_active_primary a = elim a.primary_callsign_id [ none ↦ true | some k ↦ is_active k a.callsigns ]

pub data CallsignRequest : Type 0 where
  add :
      (now : ℕ) (p : RequestContext) (new_id account_id : String) (body : Fields) → CallsignRequest
  make_primary :
      (now : ℕ) (p : RequestContext) (account_id : String) (body : Fields) → CallsignRequest
  give_evidence :
      (now : ℕ) (p : RequestContext) (new_id account_id id : String) (body : Fields)
      → CallsignRequest
  verify : (now : ℕ) (p : RequestContext) (account_id id : String) (body : Fields) → CallsignRequest
  retire : (now : ℕ) (p : RequestContext) (account_id id : String) (body : Fields) → CallsignRequest

module _ (py : Platform) where
  -- the state after a request, kept or raised
  unfoldable pub after_callsign : CallsignRequest → IdentityStore → IdentityStore
  after_callsign (add now p new_id account_id body) store =
      (add_callsign py now p new_id account_id body store).1
  after_callsign (make_primary now p account_id body) store =
      (set_primary py now p account_id body store).1
  after_callsign (give_evidence now p new_id account_id id body) store =
      (add_evidence py now p new_id account_id id body store).1
  after_callsign (verify now p account_id id body) store =
      (verify_callsign py now p account_id id body store).1
  after_callsign (retire now p account_id id body) store =
      (retire_callsign py now p account_id id body store).1

  unfoldable pub after_callsigns : IdentityStore → List CallsignRequest → IdentityStore
  after_callsigns store [] = store
  after_callsigns store (r ∷ rs) = after_callsigns (after_callsign r store) rs

-- a callsign is not added as a retired one, and is not to replace itself
abbrev pub is_proper : CallsignRequest → Bool
is_proper (add now p new_id account_id body) =
    not (is_text (get_or "status" (text "UNVERIFIED") body) "RETIRED")
is_proper (retire now p account_id id body) =
    not (is_text (get_value "newPrimaryCallsignId" body) id)
is_proper _ = true

abbrev pub Good : IdentityStore → Type 0
Good store = All (λ a. has_active_primary a ≡ true) store.accounts

pub is_active-append :
    (k : String) (cs : List Callsign) (c : Callsign)
    → is_active k (cs ++ c ∷ []) ≡ (is_active k cs || (str_eq c.id k && not (is_retired c)))
is_active-append k [] c = ground arith
is_active-append k (d ∷ cs) c = ground (arith, is_active-append k cs c)

pub or_mono :
    (a a' b b' : Bool)
    → (a ≡ true → a' ≡ true)
    → (b ≡ true → b' ≡ true)
    → (a || b) ≡ true
    → (a' || b') ≡ true
or_mono true a' b b' f g h = rw (f refl) refl
or_mono false true b b' f g h = refl
or_mono false false b b' f g h = g h

-- a change of another callsign, or one that retires nothing, keeps an active one
module _ (k id : String) (f : Callsign → Callsign) (same : (c : Callsign) → (f c).id ≡ c.id)
    (harmless : (str_eq id k ≡ false)
      ⊎ ((c : Callsign) → is_retired (f c) ≡ true → is_retired c ≡ true)) where
  changed :
      (c : Callsign)
      → c.id ≡ id
      → (str_eq c.id k && not (is_retired c)) ≡ true
      → (str_eq (f c).id k && not (is_retired (f c))) ≡ true
  changed c p h = elim harmless [
    | inl n ↦ let no_ : str_eq c.id k ≡ false = rw p n in ground arith
    | inr g ↦ ground (arith, same c, g c)
  ]

  pub is_active-change :
      (cs : List Callsign) → is_active k cs ≡ true → is_active k (change_callsign id f cs) ≡ true
  unfolding update_row
  is_active-change [] h = h
  is_active-change (c ∷ cs) h = elim (String-cases c.id id) [
    | inl (e, p) ↦ rw (update_row, e) (or_mono _ _ _ _ (changed c p) (λ x. x) h)
    | inr (e, n) ↦ rw (update_row, e) (or_mono _ _ _ _ (λ x. x) (is_active-change cs) h)
  ]

-- an account that is found among good ones is good, and one that is good may be put back
pub account-Ensures : (id : String) → Ensures Good (λ a. has_active_primary a ≡ true) (account id)
unfolding account
account-Ensures id = record {
  kept = λ s h. h;
  gives = λ s a h e.
      find_row-All (λ b. b.id) (λ b. has_active_primary b ≡ true) id s.accounts {x = a} h
        (ground arith);
}

-- handlers of the identity service
abbrev pub Kept : {A : Type 0} → Handler A → Type 0
Kept m = Ensures Good (λ a. Unit {0}) m

pub put_account-Ensures :
    (a : Account) → has_active_primary a ≡ true → Kept (modify (put_account a))
unfolding put_account
put_account-Ensures a g = modify-Ensures Good (put_account a) (λ s h.
    update_row-All (λ b. b.id) (λ b. has_active_primary b ≡ true) a.id (λ b. true) (λ b. a)
      s.accounts (λ b q e. g) h)

pub event-Ensures : (t id : String) → Kept (modify (event t id))
unfolding event
event-Ensures t id = modify-Ensures Good (event t id) (λ s h. h)

pub auth-Ensures :
    (py : Platform) (now : ℕ) (p : RequestContext) (scopes : List String) (id : Option String)
    → Kept (auth py now p scopes id)
unfolding auth
auth-Ensures py now p scopes id =
    Keeps-Ensures Good (search (if-Keeps, lift-Keeps, bind-Keeps, state-Keeps, pure-Keeps) depth 14)

-- a handler goes on, with what its first part ensures
pub going :
    {A B : Type 0} {m : Handler A} {f : A → Handler B} (Q : A → Type 0)
    → Ensures Good Q m
    → ((a : A) → Q a → Kept (f a))
    → Kept (m >>= f)
going Q em ef = bind-Ensures Good Q (λ b. Unit {0}) em ef

pub lifted :
    {A B : Type 0} {f : A → Handler B} (r : Result ServiceError A)
    → ((a : A) → r ≡ ok a → Kept (f a))
    → Kept (lift r >>= f)
lifted r ef = going (λ a. r ≡ ok a) (lift-Ensures Good r) ef

pub passed :
    {A B : Type 0} {m : Handler A} {f : A → Handler B}
    → Kept m
    → ((a : A) → Kept (f a))
    → Kept (m >>= f)
passed em ef = going (λ a. Unit {0}) em (λ a u. ef a)
