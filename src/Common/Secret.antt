-- ===== src/Common/Secret.antt =====
-- services/common.py: hash_secret and verify_secret, with hashlib.scrypt of a value and a salt as a
-- parameter.
use myota_platform.Base.{false, none, some, String, Bool, if◌then◌else◌, not, str_eq}
use myota_platform.Base.Raise.{◌>>=◌, ok, Result, or_raise}
use myota_platform.Common.Token.{Crypto, split_three}
use myota_platform.Base.Text.{concat}
use myota_platform.Json.{Json}
use myota_platform.Awards.Design.{ServiceError, attribute_error}
use myota_platform.Outbox.Routing.{as_text}

module _ (py : Crypto) (scrypt : String → String → String) where
  unfoldable pub hash_secret : String → String → String
  hash_secret salt value =
      concat "scrypt" (concat "$" (concat (py.b64 salt) (concat "$" (py.b64 (scrypt value salt)))))

  -- value.encode() of a value that is no text raises AttributeError
  unfoldable pub verify_secret : Json → String → Result ServiceError Bool
  unfolding split_three
  verify_secret value encoded = elim (split_three 0x24 encoded) [
    | none ↦ ok false
    | some (scheme, salt, expected) ↦ if not (str_eq scheme "scrypt") then ok false else (do
      v ← or_raise (as_text value) attribute_error
      ok (elim (py.unb64 salt) [
        | none ↦ false
        | some s ↦ elim (py.unb64 expected) [
          | none ↦ false
          | some digest ↦ str_eq (scrypt v s) digest
        ]
      ]))
  ]
