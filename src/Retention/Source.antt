-- ===== src/Retention/Source.antt =====
-- services/import_retention.py: source_object. The metadata of an import are a JSON value, or a text that
-- json.loads reads, which is a parameter.
use Prim.Native.Char.{code}
use myota_platform.Base.{
  false, none, some, ◌∷◌, [], ℕ, String, List, Bool, Option, if◌then◌else◌, ◌||◌, ◌==◌, str_eq, any,
  not, ◌&&◌,
}
use myota_platform.Base.Raise.{ok, err, Result, guard, ◌>>=◌, ◌>>◌, or_raise}
use myota_platform.Base.Text.{strip, is_empty}
use myota_platform.Json.{Json, truthy, get_value, text, object}
use myota_platform.Awards.Design.{ServiceError, value_error}
use myota_platform.Outbox.Routing.{is_text}

-- s.split(c), the parts from the left
unfoldable pub parts_at : ℕ → String → String × List String
parts_at sep String.[] = (String.[], [])
parts_at sep (String.◌∷◌ c s) =
    let rest = parts_at sep s in
    if code c == sep then (String.[], rest.0 ∷ rest.1) else (String.◌∷◌ c rest.0, rest.1)

unfoldable pub split_at : ℕ → String → List String
unfolding parts_at
split_at sep s = (parts_at sep s).0 ∷ (parts_at sep s).1

-- a character is in a text
unfoldable pub has_character : ℕ → String → Bool
has_character k String.[] = false
has_character k (String.◌∷◌ c s) = code c == k || has_character k s

-- part in {"", ".", ".."}
abbrev pub is_unsafe_part : String → Bool
is_unsafe_part part = is_empty part || (str_eq part "." || str_eq part "..")

unfoldable pub is_unsafe_bucket : String → Bool
unfolding has_character
is_unsafe_bucket b =
    is_empty b
    || (has_character 0x2f b || (has_character 0x5c b || (str_eq b "." || str_eq b "..")))

abbrev starts_with_slash : String → Bool
starts_with_slash String.[] = false
starts_with_slash (String.◌∷◌ c s) = code c == 0x2f

unfoldable pub is_unsafe_key : String → Bool
unfolding has_character split_at
is_unsafe_key key =
    starts_with_slash key || (has_character 0x5c key || any is_unsafe_part (split_at 0x2f key))

-- bucket = import_bucket where the metadata name a key and no bucket
abbrev pub bucket_or : String → Json → Json → Json
bucket_or import_bucket bucket key =
    if not (truthy bucket) && truthy key then text import_bucket else bucket

-- the checks on a bucket and a key that are there
unfoldable pub checked_object : String → Json → String → Result ServiceError (String × String)
unfolding is_unsafe_bucket is_unsafe_key strip
checked_object import_bucket bucket key =
    guard (is_text bucket import_bucket) value_error
    >> guard (not (is_empty (strip key))) value_error
    >> guard (not (is_unsafe_bucket import_bucket)) value_error
    >> guard (not (is_unsafe_key key)) value_error
    >> ok (import_bucket, key)

unfoldable pub key_object : String → Json → Json → Result ServiceError (Option (String × String))
unfolding checked_object
key_object import_bucket bucket (text k) =
    checked_object import_bucket bucket k >>= λ r. ok (some r)
key_object import_bucket bucket _ = err value_error

-- what stands under "source": a dictionary with its key
unfoldable pub object_of : String → Json → Result ServiceError (Option (String × String))
unfolding key_object
object_of import_bucket (object source) =
    let key = get_value "objectKey" source in
    if truthy key
    then key_object import_bucket (bucket_or import_bucket (get_value "bucket" source) key) key
    else ok none
object_of import_bucket _ = ok none

unfoldable pub object_in : String → Json → Result ServiceError (Option (String × String))
unfolding object_of
object_in import_bucket (object d) = object_of import_bucket (get_value "source" d)
object_in import_bucket _ = err value_error

module _ (loads : String → Option Json) where
  -- a text is read first
  abbrev pub loaded : Json → Result ServiceError Json
  loaded (text s) = or_raise (loads s) value_error
  loaded v = ok v

  unfoldable pub source_object : Json → String → Result ServiceError (Option (String × String))
  unfolding object_in
  source_object metadata import_bucket = loaded metadata >>= object_in import_bucket
