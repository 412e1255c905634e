-- ===== src/Awards/Condition.antt =====
-- services/awards.py: _number, _operator and evaluate_condition.
use myota_platform.Base.{
  String, if◌then◌else◌, Bool, List, ℕ, str_eq, suc, ◌||◌, true, false, not, ◌∷◌, [], zero, any,
}
use myota_platform.Base.Raise.{Result, ok, err, or_raise, ◌>>=◌}
use myota_platform.Builtins.{Builtins, str_of}
use myota_platform.Json.{
  Fields, Json, get_or, text, array, object, depth, nil, end, truthy, iterated, number,
}

pub data ConditionError : Type 0 where
  not_numeric : ConditionError
  unsupported_kind : ConditionError
  -- AttributeError and TypeError of a condition or a list that is none
  malformed : ConditionError
  -- the recursion is cut off
  too_deep : ConditionError

-- the branches of evaluate_condition
pub data Branch : Type 0 where
  conjunction disjunction negation entity_type field_value unsupported : Branch
  counted : (fact : String) → Branch

unfoldable pub branch_of : String → Branch
branch_of kind =
    if str_eq kind "AND" || str_eq kind "ALL"
    then conjunction
    else if str_eq kind "OR" || str_eq kind "ANY"
    then disjunction
    else if str_eq kind "NOT"
    then negation
    else if str_eq kind "QSO_COUNT"
    then counted "qsoCount"
    else if str_eq kind "ACTIVATION_COUNT"
    then counted "activationCount"
    else if str_eq kind "UNIQUE_CALLSIGNS"
    then counted "uniqueCallsignCount"
    else if str_eq kind "UNIQUE_ENTITIES"
    then counted "uniqueEntityCount"
    else if str_eq kind "ENTITY_TYPE"
    then entity_type
    else if str_eq kind "FIELD"
    then field_value
    else unsupported

-- the rest of all(…) after its first value, of which an exception passes
abbrev pub and_rest :
    Result ConditionError Bool → Result ConditionError Bool → Result ConditionError Bool
and_rest (ok true) rest = rest
and_rest (ok false) rest = ok false
and_rest (err e) rest = err e

-- the rest of any(…)
abbrev pub or_rest :
    Result ConditionError Bool → Result ConditionError Bool → Result ConditionError Bool
or_rest (ok true) rest = ok true
or_rest (ok false) rest = rest
or_rest (err e) rest = err e

-- all(f(x) for x in xs)
unfoldable pub every {ℓ} :
    {A : Type ℓ} → (A → Result ConditionError Bool) → List A → Result ConditionError Bool
every f [] = ok true
every f (x ∷ xs) = and_rest (f x) (every f xs)

-- any(f(x) for x in xs)
unfoldable pub some_of {ℓ} :
    {A : Type ℓ} → (A → Result ConditionError Bool) → List A → Result ConditionError Bool
some_of f [] = ok false
some_of f (x ∷ xs) = or_rest (f x) (some_of f xs)

abbrev pub negated : Result ConditionError Bool → Result ConditionError Bool
negated (ok b) = ok (not b)
negated (err e) = err e

module _ (py : Builtins) where
  abbrev pub kind_of : Fields → String
  kind_of condition = py.upper (str_of py (get_or "kind" (text "") condition))

  abbrev pub operator_of : Fields → String
  operator_of condition = py.upper (str_of py (get_or "operator" (text "GTE") condition))

  -- _operator
  unfoldable pub operator : py.number_type → String → py.number_type → Bool
  operator actual op expected =
      if str_eq op "GTE"
      then py.ge actual expected
      else if str_eq op "GT"
      then py.gt actual expected
      else if str_eq op "EQ"
      then py.eq actual expected
      else if str_eq op "LTE"
      then py.ge expected actual
      else if str_eq op "LT"
      then py.gt expected actual
      else false

  -- a comparison of a fact with condition.value
  unfoldable pub compare_fact : String → Fields → Fields → Result ConditionError Bool
  unfolding operator
  compare_fact fact condition facts = do
    actual ← or_raise (py.float (get_or fact (number 0) facts)) not_numeric
    expected ← or_raise (py.float (get_or "value" (number 0) condition)) not_numeric
    ok (operator actual (operator_of condition) expected)

  -- str(facts.get("entityType", "")) in {str(value) for value in condition.get("values", [])}
  unfoldable pub has_entity_type : Fields → Fields → Result ConditionError Bool
  has_entity_type condition facts = do
    values ← or_raise (iterated (get_or "values" (array nil) condition)) malformed
    ok (any (λ v. str_eq (str_of py v) (str_of py (get_or "entityType" (text "") facts))) values)

  -- children and all or any of them
  unfoldable pub over_children :
      (List Json → Result ConditionError Bool) → Fields → Result ConditionError Bool
  over_children f condition =
      let children = get_or "conditions" (array nil) condition in
      if truthy children then or_raise (iterated children) malformed >>= f else ok false

  -- the branches, with what evaluates a nested condition
  unfoldable pub by_branch :
      (Json → Result ConditionError Bool) → Branch → Fields → Fields → Result ConditionError Bool
  unfolding compare_fact has_entity_type over_children
  by_branch nested conjunction condition facts = over_children (every nested) condition
  by_branch nested disjunction condition facts = over_children (some_of nested) condition
  by_branch nested negation condition facts =
      negated (nested (get_or "condition" (object end) condition))
  by_branch nested entity_type condition facts = has_entity_type condition facts
  by_branch nested field_value condition facts =
      compare_fact (str_of py (get_or "field" (text "") condition)) condition facts
  by_branch nested unsupported condition facts = err unsupported_kind
  by_branch nested (counted fact) condition facts = compare_fact fact condition facts

  unfoldable pub evaluate : ℕ → Json → Fields → Result ConditionError Bool
  unfolding by_branch
  evaluate zero condition facts = err too_deep
  evaluate (suc n) (object condition) facts =
      by_branch (λ child. evaluate n child facts) (branch_of (kind_of condition)) condition facts
  evaluate (suc n) _ facts = err malformed

  -- evaluate_condition: the nesting of the condition bounds the recursion
  unfoldable pub evaluate_condition : Json → Fields → Result ConditionError Bool
  unfolding evaluate
  evaluate_condition condition facts = evaluate (suc (depth condition)) condition facts
