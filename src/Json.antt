-- ===== src/Json.antt =====
-- JSON values, as the payloads of outbox rows hold them. An object is its list of fields.
use myota_platform.Base.{
  ℕ, String, Option, none, some, Bool, true, false, str_eq, if◌then◌else◌, List, [], ◌∷◌, not, map,
  ◌==◌, suc, max,
}
use myota_platform.Base.Text.{is_empty}

mutual
  pub data Json : Type 0 where
    null : Json
    boolean : Bool → Json
    number : ℕ → Json
    -- a number whose value is not a natural number, by its JSON text
    real : String → Json
    text : String → Json
    array : Items → Json
    object : Fields → Json

  pub data Items : Type 0 where
    nil : Items
    cons : Json → Items → Items

  pub data Fields : Type 0 where
    end : Fields
    field : String → Json → Fields → Fields

-- d.get(k)
unfoldable pub get : String → Fields → Option Json
get k end = none
get k (field j v fs) = if str_eq j k then some v else get k fs

-- d.get(k), where a missing key and null are both None
unfoldable pub get_value : String → Fields → Json
unfolding get
get_value k fs = elim (get k fs) [ none ↦ null | some v ↦ v ]

abbrev pub is_null : Json → Bool
is_null null = true
is_null _ = false

-- d[k] = v, which keeps the place of a key that is there
unfoldable pub set_field : String → Json → Fields → Fields
set_field k v end = field k v end
set_field k v (field j w fs) = if str_eq j k then field k v fs else field j w (set_field k v fs)

-- the keys of an object
unfoldable pub keys : Fields → List String
keys end = []
keys (field k v fs) = k ∷ keys fs

-- d.get(k, default)
unfoldable pub get_or : String → Json → Fields → Json
get_or k default fs = elim (get k fs) [ none ↦ default | some v ↦ v ]

-- k in d
unfoldable pub has_key : String → Fields → Bool
has_key k fs = elim (get k fs) [ none ↦ false | some v ↦ true ]

-- {**d, **e}
unfoldable pub merge : Fields → Fields → Fields
merge d end = d
merge d (field k v e) = merge (set_field k v d) e

abbrev pub items : Items → List Json
items nil = []
items (cons v vs) = v ∷ items vs

-- bool(v)
abbrev pub truthy : Json → Bool
truthy null = false
truthy (boolean b) = b
truthy (number n) = not (n == 0)
truthy (real s) = true
truthy (text s) = not (is_empty s)
truthy (array nil) = false
truthy (array (cons v vs)) = true
truthy (object end) = false
truthy (object (field k v fs)) = true

-- the characters of a text, as texts
unfoldable pub characters : String → List Json
characters String.[] = []
characters (String.◌∷◌ c s) = text (String.◌∷◌ c String.[]) ∷ characters s

-- what `for x in v` runs over, or none where it raises
unfoldable pub iterated : Json → Option (List Json)
iterated (array vs) = some (items vs)
iterated (text s) = some (characters s)
iterated (object fs) = some (map text (keys fs))
iterated _ = none

-- how deep lists and dictionaries are nested
unfoldable mutual
  pub depth : Json → ℕ
  depth (array vs) = suc (items_depth vs)
  depth (object fs) = suc (fields_depth fs)
  depth _ = 1

  pub items_depth : Items → ℕ
  items_depth nil = 0
  items_depth (cons v vs) = max (depth v) (items_depth vs)

  pub fields_depth : Fields → ℕ
  fields_depth end = 0
  fields_depth (field k v fs) = max (depth v) (fields_depth fs)
