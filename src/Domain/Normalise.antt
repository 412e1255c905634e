-- ===== src/Domain/Normalise.antt =====
-- services/activity_domain.py: the normal forms of callsigns, bands, modes and contacts.
use Prim.Native.Char.{code}
use myota_platform.Base.Raise.{Result, ok, err, ◌>>=◌, or_raise}
use myota_platform.Base.{
  List, ℕ, String, ◌∷◌, Bool, if◌then◌else◌, ◌≡◌, [], leb, true, not, ◌==◌, ◌&&◌, false, member,
  ◌||◌, arith, refl,
}
use myota_platform.Json.{Json, text, Fields, null, truthy, get, get_value, merge, field, end}
use myota_platform.Builtins.{Builtins, str_of, iso_time}
use myota_platform.Domain.Words.{join, split, split-IsWord, strip-join, split-join}
use myota_platform.Base.Text.{concat, is_empty, strip, text_length, first}

pub data DomainError : Type 0 where
  value_error key_error type_error : DomainError

abbrev pub valid_bands : List String
valid_bands =
    "2190M" ∷ "630M" ∷ "160M" ∷ "80M" ∷ "60M" ∷ "40M" ∷ "30M" ∷ "20M" ∷ "17M" ∷ "15M" ∷ "12M"
    ∷ "10M" ∷ "6M" ∷ "4M" ∷ "2M" ∷ "70CM" ∷ "23CM" ∷ []

abbrev pub valid_modes : List String
valid_modes =
    "AM" ∷ "CW" ∷ "FM" ∷ "FT8" ∷ "FT4" ∷ "JS8" ∷ "RTTY" ∷ "SSB" ∷ "USB" ∷ "LSB" ∷ "DIGITAL"
    ∷ "PSK31" ∷ "SSTV" ∷ "DSTAR" ∷ "DMR" ∷ "C4FM" ∷ []

-- [A-Z0-9/ -]
unfoldable pub is_call_char : ℕ → Bool
is_call_char c =
    leb b'A' c && leb c b'Z'
    || (leb b'0' c && leb c b'9' || (c == b'/' || (c == b' ' || c == b'-')))

-- every character of the class
unfoldable pub all_chars : (ℕ → Bool) → String → Bool
all_chars p String.[] = true
all_chars p (String.◌∷◌ c s) = p (code c) && all_chars p s

-- not empty, at most 32 characters, and all of the class
unfoldable pub is_callsign : String → Bool
unfolding all_chars is_call_char
is_callsign s = not (is_empty s) && (leb (text_length s) 32 && all_chars is_call_char s)

-- s.replace(c, "") for one character
unfoldable pub remove_char : ℕ → String → String
remove_char d String.[] = String.[]
remove_char d (String.◌∷◌ c s) =
    let rest = remove_char d s in if code c == d then rest else String.◌∷◌ c rest

-- value in (None, "")
abbrev pub is_absent : Json → Bool
is_absent null = true
is_absent (text s) = is_empty s
is_absent _ = false

module _ (py : Builtins) where
  -- " ".join(str(value).upper().strip().split())
  unfoldable pub tidy : Json → String
  unfolding join split
  tidy value = join (split (strip (py.upper (str_of py value))))

  unfoldable pub normalize_callsign : Json → Result DomainError String
  unfolding tidy is_callsign
  normalize_callsign value =
      let callsign = tidy value in if is_callsign callsign then ok callsign else err value_error

  -- a name of a table in upper case, without a character
  unfoldable pub normalize_name : ℕ → List String → Json → Result DomainError Json
  normalize_name dropped valid value =
      let name = remove_char dropped (py.upper (str_of py value)) in
      if is_absent value
      then ok null
      else if member name valid
      then ok (text name)
      else err value_error

  unfoldable pub normalize_band : Json → Result DomainError Json
  unfolding normalize_name
  normalize_band value = normalize_name b' ' valid_bands value

  unfoldable pub normalize_mode : Json → Result DomainError Json
  unfolding normalize_name
  normalize_mode value = normalize_name b'-' valid_modes value

  -- v or w
  abbrev pub or_else : Json → Json → Json
  or_else v w = if truthy v then v else w

  unfoldable pub worked_station_key : String → Json → Result DomainError String
  unfolding normalize_callsign
  worked_station_key callsign locator = do
    normal ← normalize_callsign (text callsign)
    ok (concat normal (concat "|" (strip (py.upper (str_of py (or_else locator (text "")))))))

  unfoldable pub normalize_qso : Fields → Result DomainError Fields
  unfolding normalize_callsign normalize_band normalize_mode worked_station_key
  normalize_qso record_ = do
    worked ← or_raise (get "workedCallsign" record_) key_error
    callsign ← normalize_callsign worked
    timestamp ←
        or_raise
          (iso_time py (or_else (get_value "timestamp" record_) (get_value "timeOn" record_)))
          value_error
    band ← normalize_band (get_value "band" record_)
    mode ← normalize_mode (get_value "mode" record_)
    key ← worked_station_key callsign (get_value "workedLocator" record_)
    ok (
        merge record_ (
          field "workedCallsign" (text callsign) (
            field "timestamp" (text timestamp)
              (field "band" band (field "mode" mode (field "workedStationKey" (text key) end))))))

  -- value[:2] + "***" + value[-1:]
  unfoldable pub mask_callsign : Json → Result DomainError String
  unfolding normalize_callsign
  mask_callsign value = do
    callsign ← normalize_callsign value
    ok (
        if leb (text_length callsign) 3
        then "***"
        else concat (first 2 callsign) (concat "***" (last_char callsign)))
    where
      last_char : String → String
      last_char String.[] = String.[]
      last_char (String.◌∷◌ c s) = if is_empty s then String.◌∷◌ c String.[] else last_char s

-- A normal form is normal: what normalize_callsign returns has 1 to 32 characters of A-Z, 0-9, slash, space
-- and dash, and it returns it again; provided upper() leaves such texts alone.
pub normalize_callsign_again :
    (py : Builtins) (value : Json) (callsign : String)
    → ((s : String) → all_chars is_call_char s ≡ true → py.upper s ≡ s)
    → normalize_callsign py value ≡ ok callsign
    → (is_callsign callsign ≡ true) × (normalize_callsign py (text callsign) ≡ ok callsign)
unfolding normalize_callsign tidy
normalize_callsign_again py value callsign fixed h =
    let ws = split (strip (py.upper (str_of py value))) in
    let words = split-IsWord (strip (py.upper (str_of py value))) in
    let same : join ws ≡ callsign = ground arith in
    let valid : is_callsign callsign ≡ true = ground arith in
    let up : py.upper callsign ≡ callsign = fixed callsign (unfold is_callsign in ground arith) in
    let stripped : strip callsign ≡ callsign = rw same at (strip-join ws words) in
    let again : split callsign ≡ ws = rw same at (split-join ws words) in
    (valid, rw (up, stripped, again, same, valid) refl)
