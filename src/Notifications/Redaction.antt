-- ===== src/Notifications/Redaction.antt =====
-- services/event_consumer.py: _safe_diagnostic. str.lower of a key is a parameter.
use Prim.Native.Char.{code}
use myota_platform.Base.{
  true, false, ◌∷◌, [], List, String, Bool, ◌||◌, any, ◌==◌, ◌&&◌, if◌then◌else◌,
}
use myota_platform.Json.{Json, Fields, object, array, Items, cons, field, text, nil, end}

abbrev pub sensitive_parts : List String
sensitive_parts =
    "password" ∷ "secret" ∷ "token" ∷ "authorization" ∷ "credential" ∷ "email" ∷ "address"
    ∷ "remoteaddr" ∷ "ipaddress" ∷ "phone" ∷ []

unfoldable pub starts_with : String → String → Bool
starts_with String.[] s = true
starts_with (String.◌∷◌ c part) String.[] = false
starts_with (String.◌∷◌ c part) (String.◌∷◌ d s) = code c == code d && starts_with part s

-- part in s
unfoldable pub contains : String → String → Bool
unfolding starts_with
contains part String.[] = starts_with part String.[]
contains part (String.◌∷◌ c s) = starts_with part (String.◌∷◌ c s) || contains part s

module _ (lower : String → String) where
  unfoldable pub is_sensitive : String → Bool
  unfolding contains
  is_sensitive key = any (λ part. contains part (lower key)) sensitive_parts

  unfoldable mutual
    unfolding is_sensitive

    pub clean : Json → Json
    clean (object fs) = object (clean_fields fs)
    clean (array vs) = array (clean_items vs)
    clean v = v

    pub clean_items : Items → Items
    clean_items nil = nil
    clean_items (cons v vs) = cons (clean v) (clean_items vs)

    pub clean_fields : Fields → Fields
    clean_fields end = end
    clean_fields (field k v fs) =
        field k (if is_sensitive k then text "[REDACTED]" else clean v) (clean_fields fs)

  -- _safe_diagnostic
  unfoldable pub safe_diagnostic : Fields → Fields
  unfolding clean_fields
  safe_diagnostic event = clean_fields event
