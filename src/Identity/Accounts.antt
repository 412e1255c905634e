-- ===== src/Identity/Accounts.antt =====
-- services/identity.py: create_account, register and update_admin_account. The replay of a request under
-- its idempotency key is Store.once.
use myota_platform.Base.{
  true, false, none, some, ◌∷◌, [], List, ℕ, Bool, String, Option, any, if◌then◌else◌, map, not,
  str_eq, ◌&&◌, leb, ◌||◌,
}
use myota_platform.Json.{
  Json, Fields, cons, get_value, text, object, array, has_key, field, end, items, truthy, null,
}
use myota_platform.Identity.Roles.{Platform}
use myota_platform.Identity.Store.{
  Handler, put_account, Account, IdentityStore, account, event, audit, add_account,
}
use myota_platform.Identity.Sessions.{account_for_email, mint_tokens, NewIds}
use myota_platform.Identity.Passwords.{set_password, revoke_all}
use myota_platform.Identity.Auth.{admin_authorize, RequestContext}
use myota_platform.Identity.Callsigns.{append_callsign}
use myota_platform.Base.Effect.{◌>>=◌, ◌>>◌, pure, lift, modify, check, state}
use myota_platform.Outbox.Routing.{is_text, as_text}
use myota_platform.Base.Text.{is_empty, text_length}
use myota_platform.Awards.Lifecycle.{require}
use myota_platform.Awards.Design.{value_error, type_error, ServiceError, attribute_error}
use myota_platform.Base.Raise.{or_raise, ok, err, Result}
use myota_platform.Identity.Replacement.{replace_roles}

abbrev pub one_of : List String → Json → Bool
one_of names v = any (λ s. is_text v s) names

abbrev pub is_set_text : Json → Bool
is_set_text (text s) = true
is_set_text _ = false

-- an e-mail of a body: the empty text and null are None
abbrev pub email_of : Json → Option String
email_of (text s) = if is_empty s then none else some s
email_of _ = none

-- email.strip() of another value that is not empty raises AttributeError
abbrev pub given_email : Json → Result ServiceError (Option String)
given_email v = if truthy v && not (is_set_text v) then err attribute_error else ok (email_of v)

abbrev pub new_account : ℕ → String → Fields → Account
new_account now id body = record {
  id = id;
  display_name = get_value "displayName" body;
  email = email_of (get_value "email" body);
  participation_type = get_value "participationType" body;
  status = text "ACTIVE";
  callsigns = [];
  primary_callsign_id = none;
  created_at = now;
  updated_at = now;
}

abbrev pub when_ : Bool → Handler (Unit {0}) → Handler (Unit {0})
when_ b m = if b then m else pure tt

-- the roles that a body asks for, where roles and roleCodes are lists
unfoldable pub asked_roles : Fields → List Json
asked_roles body = elim (get_value "roles" body) [
  | array (cons v vs) ↦ items (cons v vs)
  | _ ↦ elim (get_value "roleCodes" body) [
    | array vs ↦ map (λ v. object (field "code" v end)) (items vs)
    | _ ↦ []
  ]
]

module _ (py : Platform) where
  -- the e-mail belongs to another account
  unfoldable pub is_email_taken : Option String → String → IdentityStore → Bool
  unfolding account_for_email
  is_email_taken none id store = false
  is_email_taken (some e) id store = elim (account_for_email py e store) [
    | none ↦ false
    | some b ↦ not (str_eq b.id id)
  ]

  abbrev pub is_known : Option String → IdentityStore → Bool
  is_known none store = false
  is_known (some e) store = elim (account_for_email py e store) [ none ↦ false | some b ↦ true ]

  -- the callback of create_account, after the checks of its request
  unfoldable pub create : ℕ → String → String → String → Fields → Handler Account
  unfolding set_password append_callsign event account add_account
  create now salt account_id callsign_id body = do
    let a = new_account now account_id body
    modify (add_account a)
    when_ (truthy (get_value "password" body)) (
        lift (or_raise (as_text (get_value "password" body)) type_error) >>= λ password.
        set_password py now salt account_id password)
    when_ (truthy (get_value "callsign" body)) (
        append_callsign py now callsign_id a (get_value "callsign" body) (text "UNVERIFIED")
          (text "self-asserted") null null
        >>= λ c. pure tt)
    modify (event "identity.account.created.v1" account_id)
    account account_id

  unfoldable pub create_account : ℕ → String → String → String → Fields → Handler Account
  unfolding account_for_email create
  create_account now salt account_id callsign_id body = do
    lift (require body ("displayName" ∷ "participationType" ∷ []))
    check (one_of ("OPERATOR" ∷ "SWL" ∷ []) (get_value "participationType" body)) value_error
    store ← state
    email ← lift (given_email (get_value "email" body))
    check (not (is_known email store)) value_error
    create now salt account_id callsign_id body

  unfoldable pub register :
      ℕ → String → String → String → NewIds → Fields → Handler (String × String)
  unfolding create_account mint_tokens
  register now salt account_id callsign_id ids body = do
    lift (require body ("displayName" ∷ "email" ∷ "password" ∷ "participationType" ∷ []))
    password ← lift (or_raise (as_text (get_value "password" body)) type_error)
    check (leb 12 (text_length password)) value_error
    a ← create_account now salt account_id callsign_id body
    mint_tokens py now ids a

  -- the fields of an account that an administrator sets, one after the other
  unfoldable pub with_field :
      String → List String → (Json → Account → Account) → Fields → Account → Handler Account
  unfolding put_account
  with_field name allowed set_ body a =
      if has_key name body
      then (do
        check (one_of allowed (get_value name body)) value_error
        modify (put_account (set_ (get_value name body) a))
        pure (set_ (get_value name body) a))
      else pure a

  abbrev pub anonymous : Account → Account
  anonymous a = record a { display_name = text "Deactivated account"; email = none }

  unfoldable pub update_admin_account :
      ℕ → RequestContext → String → (ℕ → String) → String → Fields → Handler Account
  unfolding admin_authorize account with_field put_account revoke_all set_password audit
      replace_roles
  update_admin_account now p salt new_id account_id body = do
    admin_authorize py now p "identity.admin"
    a ← account account_id
    store ← state
    email ← lift (if has_key "email" body then given_email (get_value "email" body) else ok none)
    check (not (has_key "email" body && is_email_taken email a.id store)) value_error
    let a1 = if has_key "email" body then record a { email = email } else a
    modify (put_account a1)
    let a2 =
        if has_key "displayName" body
        then record a1 { display_name = get_value "displayName" body }
        else a1
    modify (put_account a2)
    a3 ←
        with_field "participationType" ("OPERATOR" ∷ "SWL" ∷ [])
          (λ v b. record b { participation_type = v }) body a2
    a4 ←
        with_field "status" ("ACTIVE" ∷ "DEACTIVATED" ∷ []) (λ v b. record b { status = v }) body a3
    let hidden = truthy (get_value "anonymize" body) && is_text a4.status "DEACTIVATED"
    let a5 = if hidden then anonymous a4 else a4
    modify (put_account a5)
    when_ hidden
        (modify (revoke_all now a.id) >> modify (audit now "identity.account.deactivated.v1" a.id))
    when_ (truthy (get_value "password" body)) (
        lift (or_raise (as_text (get_value "password" body)) type_error) >>= λ password.
        set_password py now salt a.id password >> modify (revoke_all now a.id))
    let a6 = record a5 { updated_at = now }
    modify (put_account a6)
    modify (audit now "identity.account.admin-updated.v1" a.id)
    when_ (has_key "roles" body || has_key "roleCodes" body)
        (replace_roles py now p new_id a.id (asked_roles body) >>= λ roles. pure tt)
    pure a6
