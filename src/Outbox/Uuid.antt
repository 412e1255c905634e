-- ===== src/Outbox/Uuid.antt =====
-- UUID_PATTERN of services/outbox_routing.py.
use Prim.Native.Char.{code}
use myota_platform.Base.{
  ℕ, zero, suc, String, Bool, false, ◌&&◌, ◌||◌, Option, none, some, leb, ◌==◌, if◌then◌else◌,
}
use myota_platform.Base.Text.{is_empty}

unfoldable pub is_hex : ℕ → Bool
is_hex c = leb b'0' c && leb c b'9' || (leb b'a' c && leb c b'f' || leb b'A' c && leb c b'F')

-- [1-8]
unfoldable pub is_version : ℕ → Bool
is_version c = leb b'1' c && leb c b'8'

-- [89abAB]
unfoldable pub is_variant : ℕ → Bool
is_variant c = c == b'8' || (c == b'9' || (c == b'a' || (c == b'b' || (c == b'A' || c == b'B'))))

abbrev pub is_dash : ℕ → Bool
is_dash c = c == b'-'

-- one character of a class; the rest of the text
unfoldable pub one : (ℕ → Bool) → Option String → Option String
one p none = none
one p (some String.[]) = none
one p (some (String.◌∷◌ c s)) = if p (code c) then some s else none

-- n characters of a class
unfoldable pub many : ℕ → (ℕ → Bool) → Option String → Option String
unfolding one
many zero p s = s
many (suc n) p s = many n p (one p s)

abbrev pub at_end : Option String → Bool
at_end none = false
at_end (some s) = is_empty s

-- UUID_PATTERN.fullmatch(s)
unfoldable pub matches_uuid_pattern : String → Bool
unfolding many is_hex is_version is_variant
matches_uuid_pattern s =
    let group1 = one is_dash (many 8 is_hex (some s)) in
    let group2 = one is_dash (many 4 is_hex group1) in
    let group3 = one is_dash (many 3 is_hex (one is_version group2)) in
    let group4 = one is_dash (many 3 is_hex (one is_variant group3)) in
    at_end (many 12 is_hex group4)
