-- ===== src/Identity/RoleCode.antt =====
-- services/identity.py: the code of a new role definition, as create_admin_role makes it out of a text.
use Prim.Native.Char.{code}
use myota_platform.Base.{false, ℕ, String, Bool, if◌then◌else◌, leb, ◌&&◌, ◌==◌, ◌||◌}
use myota_platform.Base.Text.{is_empty}

-- [A-Z0-9_]
unfoldable pub is_code_character : ℕ → Bool
is_code_character c = leb 0x41 c && leb c 0x5a || (leb 0x30 c && leb c 0x39 || c == 0x5f)

abbrev starts_with_blank : String → Bool
starts_with_blank String.[] = false
starts_with_blank (String.◌∷◌ c s) = code c == 0x20

-- a run of other characters as one blank
unfoldable pub blanked : String → String
unfolding is_code_character
blanked String.[] = String.[]
blanked (String.◌∷◌ c s) =
    let rest = blanked s in
    if is_code_character (code c)
    then String.◌∷◌ c rest
    else if starts_with_blank rest
    then rest
    else String.◌∷◌ " " rest

-- blanks as underscores
unfoldable pub underscored : String → String
underscored String.[] = String.[]
underscored (String.◌∷◌ c s) = String.◌∷◌ (if code c == 0x20 then "_" else c) (underscored s)

-- strip("_")
unfoldable pub lstrip_underscores : String → String
lstrip_underscores String.[] = String.[]
lstrip_underscores (String.◌∷◌ c s) =
    if code c == 0x5f then lstrip_underscores s else String.◌∷◌ c s

unfoldable pub rstrip_underscores : String → String
rstrip_underscores String.[] = String.[]
rstrip_underscores (String.◌∷◌ c s) =
    let rest = rstrip_underscores s in
    if is_empty rest && code c == 0x5f then String.[] else String.◌∷◌ c rest

-- re.sub(r"[^A-Z0-9_]+", "_", s).strip("_")
unfoldable pub role_code : String → String
unfolding blanked underscored lstrip_underscores rstrip_underscores
role_code s = lstrip_underscores (rstrip_underscores (underscored (blanked s)))
