-- ===== src/Identity/Sessions.antt =====
-- services/identity.py: _mint_tokens, login, refresh and logout. The identifiers that new_id() gives are
-- arguments.
use myota_platform.Base.{
  false, none, some, ◌∷◌, [], String, List, ℕ, Option, Bool, find, any, ◌+◌, not, ◌/◌, ◌&&◌, str_eq,
}
use myota_platform.Base.Raise.{ok, Result, or_raise}
use myota_platform.Identity.Store.{Role, IdentityStore, Account, Handler, seconds, assign, Session}
use myota_platform.Identity.Roles.{Platform, scopes_of, roles_of, is_global}
use myota_platform.Json.{
  Items, Fields, nil, field, cons, text, array, object, number, end, get_value, Json, null,
}
use myota_platform.Common.Token.{sign_token}
use myota_platform.Awards.Design.{ServiceError, attribute_error}
use myota_platform.Outbox.Routing.{as_text}
use myota_platform.Base.Text.{is_empty, strip}

-- the identifiers of a new session, of its access token and of its refresh token
pub record NewIds : Type 0 where
  pub session_id : String
  pub access_jti : String
  pub refresh_jti : String

abbrev pub text_items : List String → Items
text_items [] = nil
text_items (s ∷ ss) = cons (text s) (text_items ss)

abbrev pub body_text : String → Fields → Result ServiceError String
body_text name body = or_raise (as_text (get_value name body)) attribute_error

abbrev pub text_or_null : Option String → Json
text_or_null none = null
text_or_null (some s) = text s

-- an account that has the role of a global operator
abbrev pub is_global_operator : IdentityStore → String → Bool
is_global_operator store account_id = any is_global (roles_of account_id store)

module _ (py : Platform) where
  -- a valid role as its dictionary in the claims
  unfoldable pub role_fields : Role → Fields
  role_fields r = field "id" (text r.id) (
      field "accountId" (text r.account_id) (
        field "role" (text r.role) (
          field "programmeSlug" (text_or_null r.programme_slug) (
            field "jurisdiction" r.jurisdiction (
              field "entityType" r.entity_type (
                field "scopes" (array (text_items r.scopes)) (
                  field "createdAt" (text (py.iso_of r.created_at))
                    (field "validTo" null end))))))))

  abbrev pub role_items : List Role → Items
  role_items [] = nil
  role_items (r ∷ rs) = cons (object (role_fields r)) (role_items rs)

  unfoldable pub access_claims : ℕ → NewIds → Account → IdentityStore → Fields
  unfolding scopes_of roles_of role_fields
  access_claims now ids a store = field "sub" (text a.id) (
      field "sid" (text ids.session_id) (
        field "jti" (text ids.access_jti) (
          field "scp" (array (text_items (scopes_of py a.id store))) (
            field "iat" (number (now / 1000000)) (
              field "exp" (number (now / 1000000 + py.access_seconds)) (
                field "tokenType" (text "access")
                  (field "roles" (array (role_items (roles_of a.id store))) end)))))))

  unfoldable pub refresh_claims : ℕ → NewIds → Account → Fields
  refresh_claims now ids a = field "sub" (text a.id) (
      field "sid" (text ids.session_id) (
        field "jti" (text ids.refresh_jti) (
          field "iat" (number (now / 1000000)) (
            field "exp" (number (now / 1000000 + py.refresh_seconds))
              (field "tokenType" (text "refresh") end)))))

  -- the access token and the refresh token of the answer
  unfoldable pub mint_tokens : ℕ → NewIds → Account → Handler (String × String)
  unfolding access_claims refresh_claims sign_token
  mint_tokens now ids a store =
      let access = sign_token py.crypto (access_claims now ids a store) "access" in
      let refresh = sign_token py.crypto (refresh_claims now ids a) "refresh" in
      let session : Session = record {
        account_id = a.id;
        refresh_hash = py.crypto.sha256 refresh;
        access_jti = ids.access_jti;
        created_at = now;
        expires_at = now + seconds py.refresh_seconds;
        revoked_at = none;
      } in
      (
        ok (access, refresh),
        record store { sessions = assign ids.session_id session store.sessions },
      )

  -- _account_for_email
  unfoldable pub account_for_email : String → IdentityStore → Option Account
  account_for_email email store =
      find
        (λ a. elim a.email [
          | none ↦ false
          | some e ↦ not (is_empty e) && str_eq (py.casefold e) (py.casefold (strip email))
        ])
        store.accounts
