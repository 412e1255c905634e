-- ===== src/Builtins.antt =====
-- What services/awards.py and services/activity_domain.py take from Python: str() and upper(), times, and
-- the floating-point numbers, of which only the operations are named.
use myota_platform.Json.{Json, text}
use myota_platform.Base.{Option, String, Bool, ℕ, none, some}

pub record Builtins : Type 1 where
  pub number_type : Type 0
  -- float(v), none where it raises
  pub float : Json → Option number_type
  pub ge : number_type → number_type → Bool
  pub gt : number_type → number_type → Bool
  pub eq : number_type → number_type → Bool
  -- the number a / b, sums, products, quotients and the distance of two numbers
  pub ratio : ℕ → ℕ → number_type
  pub plus : number_type → number_type → number_type
  pub times : number_type → number_type → number_type
  pub over : number_type → number_type → number_type
  pub distance : number_type → number_type → number_type
  -- math.isfinite, round(x, 5), and math.ceil, which raises on an infinite number
  pub is_finite : number_type → Bool
  pub rounded : number_type → number_type
  pub ceil : number_type → Option number_type
  pub json_of : number_type → Json
  -- int(v), none where it raises
  pub int_of : Json → Option Json
  -- parse_timestamp(v) in microseconds from the first year, none where it raises; and iso_timestamp
  pub instant : Json → Option ℕ
  pub iso_of : ℕ → String
  -- str(v) of a value that is no text
  pub shown : Json → String
  pub upper : String → String

-- str(v)
abbrev pub str_of : Builtins → Json → String
str_of py (text s) = s
str_of py v = py.shown v

-- iso_timestamp(parse_timestamp(v))
abbrev pub iso_time : Builtins → Json → Option String
iso_time py v = elim (py.instant v) [ none ↦ none | some t ↦ some (py.iso_of t) ]
