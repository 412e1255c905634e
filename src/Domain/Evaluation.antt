-- ===== src/Domain/Evaluation.antt =====
-- services/activity_domain.py: evaluate_activation_rules. The band and the mode of a contact are texts or
-- null, as normalize_qso leaves them. The time of the evaluation is left out of the report.
use myota_platform.Base.Raise.{Result, ok, ◌>>=◌, or_raise}
use myota_platform.Json.{
  Json, Fields, get, get_value, iterated, truthy, is_null, get_or, number, array, nil,
}
use myota_platform.Builtins.{Builtins, str_of}
use myota_platform.Base.{
  ℕ, Bool, List, String, Option, none, any, if◌then◌else◌, ◌∷◌, [], ◌++◌, not, some, length, ◌&&◌,
  ltb, map,
}
use myota_platform.Domain.Normalise.{DomainError, key_error, type_error, value_error, remove_char}
use myota_platform.Outbox.Routing.{is_text, as_text}
use myota_platform.Outbox.Command.{is_nonempty_list}
use myota_platform.Base.Text.{concat}
use myota_platform.Domain.Activation.{dict_of}

-- what evaluate_activation_rules reads of the activation and its rules
pub record Terms : Type 0 where
  pub started : ℕ
  pub ended : Option ℕ
  -- validityExpiresAt, where the activation has ended
  pub expires : Option ℕ
  pub minimum : Option ℕ
  pub bands : List String
  pub modes : List String
  pub version : Json

pub record Report : Type 0 where
  pub valid : Bool
  pub violations : List String
  pub qso_count : ℕ
  pub rule_version : Json

-- the violations that an earlier time, a late end and too few contacts give
unfoldable pub time_violations : Terms → List String
time_violations t = elim t.ended [
  | none ↦ []
  | some e ↦
      (if ltb e t.started then "endedAt must be after startedAt" ∷ [] else []) ++ elim t.expires [
        | none ↦ []
        | some x ↦ if ltb x e then "activation exceeded its validity window" ∷ [] else []
      ]
]

unfoldable pub count_violations : Terms → ℕ → List String
count_violations t n = elim t.minimum [
  | none ↦ []
  | some least ↦ if ltb n least then "minimum QSO requirement was not met" ∷ [] else []
]

abbrev pub in_names : Json → List String → Bool
in_names v names = any (is_text v) names

-- the contacts whose value is set and not allowed
unfoldable pub name_violations : String → List String → List Fields → List String
name_violations key names [] = []
name_violations key names (q ∷ qs) =
    let rest = name_violations key names qs in
    let v = get_value key q in
    if truthy v && not (in_names v names)
    then concat key
        (concat " " (concat (elim (as_text v) [ none ↦ "" | some s ↦ s ]) " is not allowed"))
      ∷ rest
    else rest

-- the violations of a table of names, which binds only if it is not empty
unfoldable pub table_violations : String → List String → List Fields → List String
unfolding name_violations
table_violations key names qsos =
    if is_nonempty_list names then name_violations key names qsos else []

unfoldable pub violations_of : Terms → List Fields → List String
unfolding time_violations count_violations table_violations
violations_of t qsos =
    time_violations t
    ++ (count_violations t (length qsos)
        ++ (table_violations "band" t.bands qsos ++ table_violations "mode" t.modes qsos))

unfoldable pub report_of : Terms → List Fields → Report
unfolding violations_of
report_of t qsos = record {
  valid = not (is_nonempty_list (violations_of t qsos));
  violations = violations_of t qsos;
  qso_count = length qsos;
  rule_version = t.version;
}

module _ (py : Builtins) where
  -- parse_timestamp(v) if v else None
  unfoldable pub instant_of : Json → Result DomainError (Option ℕ)
  instant_of v =
      if truthy v then (or_raise (py.instant v) value_error >>= λ t. ok (some t)) else ok none

  -- int(rules["minimumQsos"]) if it is not None; no count is below a negative number
  unfoldable pub minimum_of : Json → Result DomainError (Option ℕ)
  minimum_of v =
      if is_null v
      then ok none
      else (or_raise (py.int_of v) value_error >>= λ n.
          ok (elim n [ number least ↦ some least | _ ↦ some 0 ]))

  -- {str(v).upper() for v in values}, with a character left out
  unfoldable pub upper_names : ℕ → Json → Result DomainError (List String)
  upper_names dropped values = do
    vs ← or_raise (iterated values) type_error
    ok (map (λ v. remove_char dropped (py.upper (str_of py v))) vs)

  unfoldable pub terms_of : Fields → Result DomainError Terms
  unfolding dict_of instant_of minimum_of upper_names
  terms_of activation = do
    rules ← dict_of (get_value "programmeRules" activation)
    started_text ← or_raise (get "startedAt" activation) key_error
    started ← or_raise (py.instant started_text) value_error
    ended ← instant_of (get_value "endedAt" activation)
    expires ← elim ended [
      | none ↦ ok none
      | some e ↦ instant_of (get_value "validityExpiresAt" activation)
    ]
    minimum ← minimum_of (get_value "minimumQsos" rules)
    -- no character is left out of a band
    bands ← upper_names 0x110000 (get_or "allowedBands" (array nil) rules)
    modes ← upper_names b'-' (get_or "allowedModes" (array nil) rules)
    ok (record {
      started = started;
      ended = ended;
      expires = expires;
      minimum = minimum;
      bands = bands;
      modes = modes;
      version = get_value "version" rules;
    })

  unfoldable pub evaluate_activation_rules : Fields → List Fields → Result DomainError Report
  unfolding terms_of report_of
  evaluate_activation_rules activation qsos = do
    terms ← terms_of activation
    ok (report_of terms qsos)
