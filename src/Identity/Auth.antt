-- ===== src/Identity/Auth.antt =====
-- services/identity.py: _auth and _admin_authorize. Scopes are lists of texts in every token that the
-- service signs.
use myota_platform.Base.{
  true, false, none, some, ◌∷◌, [], Bool, String, List, Option, if◌then◌else◌, str_eq, ℕ, ◌||◌,
  member, ◌&&◌, not, all, ◌/◌,
}
use myota_platform.Base.Effect.{◌>>=◌, ◌>>◌, check, pure}
use myota_platform.Base.Raise.{ok, err, or_raise}
use myota_platform.Json.{Items, Fields, cons, get_value, Json, text, array, nil}
use myota_platform.Common.Token.{cut, verify_token}
use myota_platform.Identity.Roles.{Platform}
use myota_platform.Identity.Store.{IdentityStore, Handler}
use myota_platform.Base.Effect.{state, lift}
use myota_platform.Base.Text.{is_empty}
use myota_platform.Outbox.Routing.{is_text}
use myota_platform.Awards.Design.{permission_error}

-- p: whether the call comes over HTTP, its Authorization header or the empty text, and its address
pub record RequestContext : Type 0 where
  pub http : Bool
  pub authorization : String
  pub remote_addr : String

abbrev pub texts : Items → List String
texts nil = []
texts (cons (text s) vs) = s ∷ texts vs
texts (cons _ vs) = texts vs

-- set(claims.get("scp", []))
unfoldable pub granted : Fields → List String
granted claims = elim (get_value "scp" claims) [ array vs ↦ texts vs | _ ↦ [] ]

abbrev pub in_bucket {ℓ} : {A : Type ℓ} → (String → Option A) → Json → Bool
in_bucket bucket (text k) = elim (bucket k) [ none ↦ false | some v ↦ true ]
in_bucket bucket _ = false

-- authorization[7:], if it starts with "Bearer "
unfoldable pub bearer_token : String → Option String
unfolding cut
bearer_token authorization = elim (cut 0x20 authorization) [
  | none ↦ none
  | some (scheme, token) ↦ if str_eq scheme "Bearer" then some token else none
]

abbrev pub is_subject : Option String → Fields → Bool
is_subject none claims = true
is_subject (some id) claims = is_empty id || is_text (get_value "sub" claims) id

abbrev pub may : Option Fields → String → Bool
may none permission = true
may (some claims) permission = member "*" (granted claims) || member permission (granted claims)

module _ (py : Platform) where
  -- what _auth asks of verified claims
  unfoldable pub admits : List String → Option String → IdentityStore → Fields → Bool
  unfolding granted
  admits scopes account_id store claims =
      let kind = get_value "tokenType" claims in
      let superuser = member "*" (granted claims) in
      (is_text kind "access" || is_text kind "service")
      && (not (in_bucket store.revoked_jti (get_value "jti" claims))
          && ((superuser || all (λ s. member s (granted claims)) scopes)
              && (superuser || is_subject account_id claims)))

  -- _auth
  unfoldable pub auth : ℕ → RequestContext → List String → Option String → Handler (Option Fields)
  unfolding bearer_token admits
  auth now p scopes account_id =
      if is_empty p.authorization
      then lift (if p.http then err permission_error else ok none)
      else (do
        token ← lift (or_raise (bearer_token p.authorization) permission_error)
        claims ← lift (verify_token py.crypto (now / 1000000) token none)
        store ← state
        check (admits scopes account_id store claims) permission_error
        pure (some claims))

  -- _admin_authorize
  unfoldable pub admin_authorize : ℕ → RequestContext → String → Handler (Option Fields)
  unfolding auth granted
  admin_authorize now p permission = do
    claims ← auth now p [] none
    check (may claims permission) permission_error
    pure claims
