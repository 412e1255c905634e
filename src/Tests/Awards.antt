-- ===== src/Tests/Awards.antt =====
-- The theorems on awards at concrete conditions and requests; the numbers are the natural ones.
use myota_platform.Json.{
  Json, get_or, object, Fields, get, get_value, number, field, text, end, array, boolean, cons,
  depth, nil, null, iterated, Items, merge, set_field, has_key,
}
use myota_platform.Builtins.{Builtins}
use myota_platform.Awards.Progress.{
  IsOrdered, Improves, progress_is_kept, Grows, is_rising, rising_branch, compares_up,
}
use myota_platform.Base.{
  String, ℕ, List, Option, leb, arith, ◌≢◌, ltb, ◌∷◌, some, ◌==◌, Bool-cases, refl, [], ◌≡◌, none,
  ◌+◌, suc, str_eq, inl, ◌*◌, inr, true, ◌-◌, ◌≤◌, All, if◌then◌else◌, eq_iff,
}
use myota_platform.Awards.Condition.{evaluate_condition, too_deep, evaluate, branch_of}
use myota_platform.Awards.Lifecycle.{
  bucket_get, Store, internal, bearer, anonymous, Database, status_of,
}
use myota_platform.Awards.History.{
  Request, submit, serve, review, Life, is_out, award_lives, publish, published_is_settled, patch,
  IsPlain,
}
use myota_platform.Base.Raise.{err, ok, Result}
use myota_platform.Awards.Table.{IsKeyed}
use mathlib.Core.Bool.{false≢true}
use myota_platform.Awards.Moves.{SameDesign}
use myota_platform.Awards.Termination.{evaluate_condition_ends}
use myota_platform.Awards.Design.{required_kinds, ServiceError}
use myota_platform.Awards.Saving.{save_award, record_id_of, checked_parts, definition_for}
use myota_platform.Awards.Spellings.{other_spelling_resets}

abbrev naturals : Json → Option ℕ
naturals (number n) = some n
naturals _ = none

abbrev pub sample_builtins : Builtins
sample_builtins = record {
  number_type = ℕ;
  float = naturals;
  ge = λ x y. leb y x;
  gt = λ x y. ltb y x;
  eq = λ x y. x == y;
  ratio = λ a b. a;
  plus = λ x y. x + y;
  times = λ x y. x * y;
  over = λ x y. x;
  distance = λ x y. (x - y) + (y - x);
  is_finite = λ x. true;
  rounded = λ x. x;
  ceil = λ x. some x;
  json_of = number;
  int_of = λ v. some v;
  instant = λ v. some 0;
  iso_of = λ t. "t";
  shown = λ v. "";
  upper = λ s. s;
}

sample_builtins-IsOrdered : IsOrdered sample_builtins
sample_builtins-IsOrdered = record {
  ge_ge = λ x y e p q. ground arith;
  ge_gt = λ x y e p q. ground arith;
}

-- ten QSOs with two stations or more
abbrev at_least : String → ℕ → Json
at_least kind n =
    object (field "kind" (text kind) (field "operator" (text "GTE") (field "value" (number n) end)))

abbrev sample_condition : Json
sample_condition = object (
    field "kind" (text "AND") (
      field "conditions"
        (array (cons (at_least "QSO_COUNT" 10) (cons (at_least "UNIQUE_CALLSIGNS" 2) nil))) end))

abbrev facts_of : ℕ → ℕ → Fields
facts_of qsos stations =
    field "qsoCount" (number qsos) (field "uniqueCallsignCount" (number stations) end)

evaluate_condition_ends_example :
    (evaluate_condition sample_builtins sample_condition (facts_of 3 1) ≢ err too_deep)
    × ((n : ℕ)
        → suc (depth sample_condition) ≤ n
        → evaluate sample_builtins n sample_condition (facts_of 3 1)
          ≡ evaluate_condition sample_builtins sample_condition (facts_of 3 1))
evaluate_condition_ends_example =
    evaluate_condition_ends sample_builtins sample_condition (facts_of 3 1) refl

facts-Grows : Grows sample_builtins (facts_of 10 3) (facts_of 12 4)
unfolding get_or get
facts-Grows = (
  λ k n. elim (Bool-cases (str_eq "qsoCount" k)) [
    | inl e ↦ rw (get_or, get, e) (10, 12, refl, refl, refl)
    | inr e ↦ elim (Bool-cases (str_eq "uniqueCallsignCount" k)) [
      | inl t ↦ rw (get_or, get, e, t) (3, 4, refl, refl, refl)
      | inr t ↦ rw (get_or, get, e, t) (0, 0, refl, refl, refl)
    ]
  ],
  refl,
)

progress_is_kept_example :
    Improves
      (evaluate_condition sample_builtins sample_condition (facts_of 10 3))
      (evaluate_condition sample_builtins sample_condition (facts_of 12 4))
unfolding is_rising rising_branch branch_of get_or get iterated depth compares_up
progress_is_kept_example =
    progress_is_kept sample_builtins sample_condition (facts_of 10 3) (facts_of 12 4)
      sample_builtins-IsOrdered facts-Grows refl

abbrev sample_award : String → Fields
sample_award status = field "id" (text "a1") (
    field "status" (text status) (
      field "condition" sample_condition
        (field "printReadiness" (object (field "printReady" (boolean true) end)) end)))

abbrev award_store : String → Store
award_store status = record {
  definitions = ("a1", sample_award status) ∷ [];
  assets = [];
  events = [];
}

-- a database that reads "A1" as the uuid "a1", and takes every award
abbrev sample_db : Database
sample_db = record {
  uuid = λ s. some (if str_eq s "A1" then "a1" else s);
  takes = λ award rows. true;
}

award_store-IsKeyed : (status : String) → IsKeyed sample_db (award_store status).definitions
unfolding bucket_get get_value get
award_store-IsKeyed status = (refl, (refl, (refl, tt)))

abbrev sample_requests : List Request
sample_requests =
    submit internal "t1" "A1"
    ∷ review (bearer (some ("awards.admin" ∷ []))) "t2" "a1"
        (field "decision" (text "APPROVED") (field "reviewerId" (text "r") end))
    ∷ publish anonymous "t3" "a1" end
    ∷ publish internal "t3" "a1"
        (field "effectiveFrom" (text "t4") (field "publisherId" (text "p") end))
    ∷ patch internal "t5" "new" "a1" (field "condition" null end)
    ∷ []

sample_requests-IsPlain : All (IsPlain sample_db sample_builtins) sample_requests
sample_requests-IsPlain = (tt, (tt, (tt, (tt, ((refl, refl), tt)))))

award_lives_example :
    (b : Fields) × (bucket_get "a1"
        (serve sample_db sample_builtins (award_store "DRAFT") sample_requests).definitions
      ≡ some b)
    × Life (sample_award "DRAFT") b
unfolding bucket_get
award_lives_example =
    award_lives sample_db sample_builtins sample_requests (award_store "DRAFT") "a1"
      (sample_award "DRAFT") (award_store-IsKeyed "DRAFT") sample_requests-IsPlain refl

published_is_settled_example :
    (b : Fields) × (bucket_get "a1"
        (serve sample_db sample_builtins (award_store "PUBLISHED") sample_requests).definitions
      ≡ some b)
    × ((is_out b ≡ true) × SameDesign b (sample_award "PUBLISHED"))
unfolding bucket_get get_value
published_is_settled_example =
    published_is_settled sample_db sample_builtins sample_requests (award_store "PUBLISHED") "a1"
      (sample_award "PUBLISHED") (award_store-IsKeyed "PUBLISHED") sample_requests-IsPlain refl refl

-- a certificate whose parts fill the page
abbrev sample_element : String → Json
sample_element kind = object (
    field "kind" (text kind) (
      field "x" (number 0)
        (field "y" (number 0) (field "width" (number 1) (field "height" (number 1) end)))))

abbrev sample_elements : List String → Items
sample_elements [] = nil
sample_elements (kind ∷ kinds) = cons (sample_element kind) (sample_elements kinds)

abbrev sample_body : Fields
sample_body = field "awardId" (text "A1") (
    field "programmeSlug" (text "p") (
      field "code" (text "C") (
        field "name" (text "n") (
          field "category" (text "HUNTER") (
            field "condition" sample_condition (
              field "levels" (array (cons (object (field "threshold" (number 1) end)) nil)) (
                field "backgroundAsset"
                  (object (field "widthPx" (number 2480) (field "heightPx" (number 3508) end)))
                  (field "template"
                    (object (
                      field "elements" (array (sample_elements (required_kinds sample_builtins)))
                        end))
                    end))))))))

abbrev overwritten : Result ServiceError (Fields × Store)
overwritten =
    save_award sample_builtins sample_db internal "t1" "new" sample_body (award_store "PUBLISHED")

-- what is left of a result that is no error
abbrev returned : Result ServiceError (Fields × Store) → Fields × Store
returned (ok r) = r
returned (err e) = (end, award_store "")

overwritten_returns : overwritten ≡ ok (returned overwritten)
unfolding save_award checked_parts get_value get_or definition_for merge set_field has_key
overwritten_returns = refl

other_spelling_resets_example :
    (bucket_get "a1" (returned overwritten).1.definitions ≡ some (returned overwritten).0)
    × (status_of (returned overwritten).0 ≡ text "DRAFT")
unfolding get_value record_id_of
other_spelling_resets_example =
    other_spelling_resets sample_db sample_builtins internal (award_store "PUBLISHED")
      (returned overwritten).1 (returned overwritten).0 "t1" "new" "A1" "a1" sample_body
      (award_store-IsKeyed "PUBLISHED") refl refl (λ p. false≢true ((eq_iff "A1" "a1").1 p))
      overwritten_returns
