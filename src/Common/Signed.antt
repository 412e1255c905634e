-- ===== src/Common/Signed.antt =====
-- What verify_token of services/common.py makes of a token that sign_token has signed.
use Prim.Native.Char.{code, Char}
use Prim.Native.String.{String}
use text.Mathlib.TextLemmas.{cons-append, nil-append, append_assoc}
use myota_platform.Base.{
  refl, none, some, inl, inr, arith, ◌≡◌, ℕ, Bool-cases, Option, ◌==◌, if◌then◌else◌, Option-cases,
  ◌&&◌, false, Bool, ltb, ◌∙◌, eq_refl, ap, true, ◌⊎◌,
}
use myota_platform.Base.Raise.{ok, err, guard, ◌>>◌, or_raise, ◌>>=◌, Result-cases}
use myota_platform.Common.Token.{
  cut, Crypto, split_three, load_part, verify_token, join_dot, sign_token, header_of, has_type,
  read_token,
}
use myota_platform.Base.Text.{concat, is_empty}
use myota_platform.Json.{Fields, object, get_or, number, get_value}
use myota_platform.Awards.Design.{permission_error}

abbrev dot : Char
dot = "."

-- a dot ends what stands before it
cut-dot : (b : String) → cut 0x2e (concat "." b) ≡ some ("", b)
unfolding cut
cut-dot b = rw (cons-append dot "" b, nil-append b) refl

cut-join_dot : (a b : String) → cut 0x2e a ≡ none → cut 0x2e (join_dot a b) ≡ some (a, b)
unfolding cut
cut-join_dot String.[] b h = rw (nil-append (concat "." b)) (cut-dot b)
cut-join_dot (String.◌∷◌ c a) b h = elim (Bool-cases (code c == 0x2e)) [
  | inl e ↦ ground arith
  | inr e ↦ elim (Option-cases (cut 0x2e a)) [
    | inr (p, m) ↦ ground arith
    | inl m ↦ rw (cons-append c a (concat "." b), cut, e, cut-join_dot a b m) refl
  ]
]

join_dot_assoc : (a b c : String) → join_dot (join_dot a b) c ≡ join_dot a (join_dot b c)
join_dot_assoc a b c =
    append_assoc a (concat "." b) (concat "." c) ∙ ap (concat a) (append_assoc "." b (concat "." c))

-- Base64 has no dot, and what is encoded is decoded again
abbrev pub IsEncoded : Crypto → String → Type 0
IsEncoded py s = (cut 0x2e (py.b64 s) ≡ none) × (py.unb64 (py.b64 s) ≡ some s)

-- what the code relies on of JSON and Base64 where it signs claims
pub record IsFaithful (py : Crypto) (claims : Fields) (token_type : String) : Type 0 where
  pub header_encoded : IsEncoded py (py.dumps (header_of token_type))
  pub claims_encoded : IsEncoded py (py.dumps claims)
  pub digest_encoded : (s : String) → IsEncoded py (py.digest s)
  pub header_loads :
      py.loads (py.dumps (header_of token_type)) ≡ some (object (header_of token_type))
  pub claims_loads : py.loads (py.dumps claims) ≡ some (object claims)

-- an expiry that can be read and is still to come
abbrev pub lives : ℕ → Option ℕ → Bool
lives now none = false
lives now (some t) = ltb now t

module _ (py : Crypto) (claims : Fields) (token_type : String)
    (sound : IsFaithful py claims token_type) where
  split-sign :
      let h = py.b64 (py.dumps (header_of token_type)) in
      let c = py.b64 (py.dumps claims) in
      split_three 0x2e (sign_token py claims token_type)
      ≡ some (h, c, py.b64 (py.digest (join_dot h c)))
  unfolding split_three sign_token
  split-sign =
      let h = py.b64 (py.dumps (header_of token_type)) in
      let c = py.b64 (py.dumps claims) in
      let g = py.b64 (py.digest (join_dot h c)) in
      rw
        (
          sign_token,
          join_dot_assoc h c g,
          split_three,
          cut-join_dot h (join_dot c g) sound.header_encoded.0,
          cut-join_dot c g sound.claims_encoded.0,
        )
        refl

  load_header :
      load_part py (py.b64 (py.dumps (header_of token_type))) ≡ some (object (header_of token_type))
  unfolding load_part
  load_header = rw (load_part, sound.header_encoded.1, sound.header_loads) refl

  load_claims : load_part py (py.b64 (py.dumps claims)) ≡ some (object claims)
  unfolding load_part
  load_claims = rw (load_part, sound.claims_encoded.1, sound.claims_loads) refl

  read-sign :
      (expected : Option String)
      → read_token py (sign_token py claims token_type) expected
        ≡ (guard (has_type expected (header_of token_type)) permission_error >> ok claims)
  unfolding read_token
  read-sign expected =
      let header = header_of token_type in
      let signed = join_dot (py.b64 (py.dumps header)) (py.b64 (py.dumps claims)) in
      rw
        (
          read_token,
          split-sign,
          (sound.digest_encoded signed).1,
          eq_refl (py.digest signed),
          load_header,
          load_claims,
        )
        (unfold header_of get_value in refl)

  -- What verify_token makes of a token that sign_token has signed, whatever its claims: the claims, if the
  -- token has the expected type (any type, if none is expected) and its expiry can be read and is still to
  -- come; and otherwise PermissionError, as for an invalid token.
  pub verify-sign :
      (now : ℕ) (expected : Option String)
      → verify_token py now (sign_token py claims token_type) expected ≡ (
          if has_type expected (header_of token_type)
            && lives now (py.int_of (get_or "exp" (number 0) claims))
          then ok claims
          else err permission_error)
  unfolding verify_token
  verify-sign now expected =
      rw (verify_token, read-sign expected)
        (elim (has_type expected (header_of token_type))
          as (λ b.
            ((guard b permission_error >> ok claims) >>= λ c.
            or_raise (py.int_of (get_or "exp" (number 0) c)) permission_error >>= λ exp.
            guard (ltb now exp) permission_error >> ok c)
            ≡ (if b && lives now (py.int_of (get_or "exp" (number 0) claims))
                then ok claims
                else err permission_error)) [ false ↦ refl | true ↦ ground arith ])

-- A token that can be read is verified, or refused for its expiry.
pub verify-read :
    (py : Crypto) (now : ℕ) (token : String) (expected : Option String) (claims : Fields)
    → read_token py token expected ≡ ok claims
    → (verify_token py now token expected ≡ ok claims)
      ⊎ (verify_token py now token expected ≡ err permission_error)
unfolding verify_token
verify-read py now token expected claims e =
    elim (Option-cases (py.int_of (get_or "exp" (number 0) claims))) [
      | inl m ↦ inr (rw (verify_token, e, m) refl)
      | inr (t, m) ↦ elim (Bool-cases (ltb now t)) [
        | inl l ↦ inl (rw (verify_token, e, m, l) refl)
        | inr l ↦ inr (rw (verify_token, e, m, l) refl)
      ]
    ]

-- a token that is verified can be read
pub read-verify :
    (py : Crypto) (now : ℕ) (token : String) (expected : Option String) (claims : Fields)
    → verify_token py now token expected ≡ ok claims
    → read_token py token expected ≡ ok claims
unfolding verify_token
read-verify py now token expected claims h = elim (Result-cases (read_token py token expected)) [
  | inr (x, e) ↦
      let no_ : verify_token py now token expected ≡ err x = rw (verify_token, e) refl in cc
  | inl (c, e) ↦ elim (Option-cases (py.int_of (get_or "exp" (number 0) c))) [
    | inl m ↦
        let no_ : verify_token py now token expected ≡ err permission_error =
          rw (verify_token, e, m) refl in
        cc
    | inr (t, m) ↦ elim (Bool-cases (ltb now t)) [
      | inr l ↦
          let no_ : verify_token py now token expected ≡ err permission_error =
            rw (verify_token, e, m, l) refl in
          cc
      | inl l ↦
          let yes_ : verify_token py now token expected ≡ ok c = rw (verify_token, e, m, l) refl in
          cc
    ]
  ]
]

-- an empty text is no token
pub read-empty :
    (py : Crypto) (token : String) (expected : Option String) (claims : Fields)
    → read_token py token expected ≡ ok claims
    → is_empty token ≡ false
unfolding read_token
read-empty py String.[] expected claims h = cc
read-empty py (String.◌∷◌ c s) expected claims h = refl
