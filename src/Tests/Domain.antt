-- ===== src/Tests/Domain.antt =====
-- The theorems on activations at a concrete callsign and a concrete activation.
use myota_platform.Builtins.{Builtins}
use myota_platform.Domain.Normalise.{
  is_callsign, normalize_callsign, normalize_callsign_again, remove_char,
}
use myota_platform.Json.{
  Fields, Json, field, number, text, object, end, null, array, cons, nil, get_value, iterated,
  get_or,
}
use myota_platform.Base.{
  List, ◌≡◌, true, Option, [], ℕ, some, refl, ◌∷◌, length, none, leb, ltb, ◌==◌, ◌+◌, ◌*◌, ◌-◌,
}
use myota_platform.Domain.Evaluation.{Report, Terms, terms_of, evaluate_activation_rules}
use myota_platform.Base.Raise.{ok}
use myota_platform.Domain.Validity.{IsWithin, valid_iff-IsWithin}
use myota_platform.Base.Text.{strip}

-- float(), int() and times on natural numbers; upper() leaves everything alone
abbrev plain_builtins : Builtins
plain_builtins = record {
  number_type = ℕ;
  float = natural;
  ge = λ x y. leb y x;
  gt = λ x y. ltb y x;
  eq = λ x y. x == y;
  ratio = λ a b. a;
  plus = λ x y. x + y;
  times = λ x y. x * y;
  over = λ x y. x;
  distance = λ x y. (x - y) + (y - x);
  is_finite = λ x. true;
  rounded = λ x. x;
  ceil = λ x. some x;
  json_of = number;
  int_of = λ v. some v;
  instant = natural;
  iso_of = λ t. "t";
  shown = λ v. "";
  upper = λ s. s;
}
  where
    natural : Json → Option ℕ
    natural (number n) = some n
    natural _ = none

normalize_callsign_again_example :
    (is_callsign "OH2 ABC" ≡ true)
    × (normalize_callsign plain_builtins (text "OH2 ABC") ≡ ok "OH2 ABC")
unfolding normalize_callsign strip
normalize_callsign_again_example =
    normalize_callsign_again plain_builtins (text "  OH2   ABC ") "OH2 ABC" (λ s h. refl) refl

abbrev sample_activation : Fields
sample_activation = field "startedAt" (number 100) (
    field "endedAt" (number 200) (
      field "programmeRules"
        (object (
          field "minimumQsos" (number 2)
            (field "allowedBands" (array (cons (text "20M") nil)) end)))
        end))

abbrev sample_qsos : List Fields
sample_qsos = field "band" (text "20M") end ∷ field "band" null end ∷ []

abbrev sample_report : Report
sample_report = record { valid = true; violations = []; qso_count = 2; rule_version = null }

valid_iff-IsWithin_example :
    (t : Terms) × (terms_of plain_builtins sample_activation ≡ ok t)
    × (sample_report.valid ≡ true → IsWithin t sample_qsos)
    × (IsWithin t sample_qsos → sample_report.valid ≡ true)
    × (sample_report.qso_count ≡ length sample_qsos)
unfolding evaluate_activation_rules get_value iterated get_or remove_char
valid_iff-IsWithin_example =
    valid_iff-IsWithin plain_builtins sample_activation sample_qsos sample_report refl
