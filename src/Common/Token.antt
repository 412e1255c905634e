-- ===== src/Common/Token.antt =====
-- services/common.py: sign_token and verify_token. A record Crypto stands for the standard library's
-- HMAC-SHA256, JSON and Base64 modules, bytes being texts of the code points below 256.
use Prim.Native.Char.{code}
use myota_platform.Base.Raise.{◌>>=◌, ◌>>◌, guard, or_raise}
use myota_platform.Base.{
  true, none, some, String, Option, ℕ, if◌then◌else◌, Bool, ◌||◌, ◌==◌, str_eq, ltb,
}
use myota_platform.Base.Raise.{ok, err, Result}
use myota_platform.Json.{Json, Fields, field, text, object, end, get_value, get_or, number}
use myota_platform.Base.Text.{concat, is_empty}
use myota_platform.Awards.Design.{ServiceError, attribute_error, permission_error}
use myota_platform.Outbox.Routing.{is_text}

pub record Crypto : Type 0 where
  -- _b64, and _unb64, which is none where it raises
  pub b64 : String → String
  pub unb64 : String → Option String
  -- json.dumps(d, separators=(",", ":")).encode(), and json.loads
  pub dumps : Fields → String
  pub loads : String → Option Json
  -- hmac.new(auth_signing_key(), s, hashlib.sha256).digest(), and hashlib.sha256(s).hexdigest()
  pub digest : String → String
  pub sha256 : String → String
  -- int(v) of an expiry, none where it raises; a negative one is 0, which is as much in the past
  pub int_of : Json → Option ℕ

-- s.split(c, 1): what stands before and after the first character of that code, none where there is none
unfoldable pub cut : ℕ → String → Option (String × String)
cut sep String.[] = none
cut sep (String.◌∷◌ c s) =
    let rest = cut sep s in
    if code c == sep
    then some (String.[], s)
    else elim rest [ none ↦ none | some (a, b) ↦ some (String.◌∷◌ c a, b) ]

-- s.split(c, 2) into three parts
unfoldable pub split_three : ℕ → String → Option (String × String × String)
unfolding cut
split_three sep s = elim (cut sep s) [
  | none ↦ none
  | some (a, rest) ↦ elim (cut sep rest) [ none ↦ none | some (b, c) ↦ some (a, b, c) ]
]

abbrev pub join_dot : String → String → String
join_dot a b = concat a (concat "." b)

-- json.loads(_unb64(s)).get(...) on a value that has no get raises AttributeError, which is not caught
unfoldable pub as_claims : Json → Result ServiceError Fields
as_claims (object d) = ok d
as_claims v = err attribute_error

unfoldable pub header_of : String → Fields
header_of token_type =
    field "alg" (text "HS256") (field "typ" (text "JWT") (field "tokenType" (text token_type) end))

-- expected_type and header.get("tokenType") != expected_type
unfoldable pub has_type : Option String → Fields → Bool
has_type none header = true
has_type (some expected) header =
    is_empty expected || is_text (get_value "tokenType" header) expected

module _ (py : Crypto) where
  -- json.loads(_unb64(s))
  unfoldable pub load_part : String → Option Json
  load_part s = elim (py.unb64 s) [ none ↦ none | some bytes ↦ py.loads bytes ]

  unfoldable pub sign_token : Fields → String → String
  unfolding header_of
  sign_token claims token_type =
      let signing_input =
        join_dot (py.b64 (py.dumps (header_of token_type))) (py.b64 (py.dumps claims)) in
      join_dot signing_input (py.b64 (py.digest signing_input))

  -- the claims of a token that is signed and has the expected type
  unfoldable pub read_token : String → Option String → Result ServiceError Fields
  unfolding split_three load_part as_claims has_type
  read_token token expected = do
    (encoded_header, encoded_claims, encoded_signature) ←
        or_raise (split_three 0x2e token) permission_error
    let signed = py.digest (join_dot encoded_header encoded_claims)
    signature ← or_raise (py.unb64 encoded_signature) permission_error
    guard (str_eq signed signature) permission_error
    header_value ← or_raise (load_part encoded_header) permission_error
    claims_value ← or_raise (load_part encoded_claims) permission_error
    header ← as_claims header_value
    guard (is_text (get_value "alg" header) "HS256") permission_error
    guard (has_type expected header) permission_error
    as_claims claims_value

  -- the clock is in seconds
  unfoldable pub verify_token : ℕ → String → Option String → Result ServiceError Fields
  unfolding read_token
  verify_token now token expected = do
    claims ← read_token token expected
    exp ← or_raise (py.int_of (get_or "exp" (number 0) claims)) permission_error
    guard (ltb now exp) permission_error
    ok claims
