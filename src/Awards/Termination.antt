-- ===== src/Awards/Termination.antt =====
-- evaluate_condition of services/awards.py ends: the nesting of a condition bounds its recursion.
use mathlib.Core.Path.{ap, sym}
use myota_platform.Awards.Depth.{depth-get_or, depth-iterated}
use myota_platform.Base.{
  ℕ, max, List, ◌≤◌, Bool, arith, All, ◌≡◌, ◌≢◌, ◌∷◌, [], refl, inl, inr, Option-cases, suc, zero,
  All-map, ◌∙◌,
}
use myota_platform.Json.{
  get_or, depth, get, iterated, Json, Fields, fields_depth, field, array, nil, end, object,
}
use myota_platform.Awards.Condition.{
  every, some_of, ConditionError, too_deep, evaluate, over_children, branch_of, unsupported_kind,
  by_branch, Branch, compare_fact, has_entity_type, counted, negated, conjunction, kind_of,
  evaluate_condition, disjunction, negation, entity_type, field_value, unsupported,
}
use myota_platform.Base.Raise.{Result, err}
use myota_platform.Builtins.{Builtins}

every_same :
    (f g : Json → Result ConditionError Bool) (xs : List Json)
    → All (λ x. f x ≡ g x) xs
    → every f xs ≡ every g xs
unfolding every
every_same f g [] h = refl
every_same f g (x ∷ xs) h = rw (every, h.0, every_same f g xs h.1) refl

some_of_same :
    (f g : Json → Result ConditionError Bool) (xs : List Json)
    → All (λ x. f x ≡ g x) xs
    → some_of f xs ≡ some_of g xs
unfolding some_of
some_of_same f g [] h = refl
some_of_same f g (x ∷ xs) h = rw (some_of, h.0, some_of_same f g xs h.1) refl

abbrev NotCutOff : Result ConditionError Bool → Type 0
NotCutOff r = r ≢ err too_deep

every-NotCutOff :
    (f : Json → Result ConditionError Bool) (xs : List Json)
    → All (λ x. NotCutOff (f x)) xs
    → NotCutOff (every f xs)
unfolding every
every-NotCutOff f [] h = ground arith
every-NotCutOff f (x ∷ xs) h = let rest = every-NotCutOff f xs h.1 in ground (arith, h.0)

some_of-NotCutOff :
    (f : Json → Result ConditionError Bool) (xs : List Json)
    → All (λ x. NotCutOff (f x)) xs
    → NotCutOff (some_of f xs)
unfolding some_of
some_of-NotCutOff f [] h = ground arith
some_of-NotCutOff f (x ∷ xs) h = let rest = some_of-NotCutOff f xs h.1 in ground (arith, h.0)

module _ (py : Builtins) where
  children_same :
      (f g : List Json → Result ConditionError Bool) (condition : Fields) (n : ℕ)
      → fields_depth condition ≤ n
      → 1 ≤ n
      → ((xs : List Json) → All (λ x. depth x ≤ n) xs → f xs ≡ g xs)
      → over_children py f condition ≡ over_children py g condition
  unfolding over_children
  children_same f g condition n h pos same =
      let children = get_or "conditions" (array nil) condition in
      elim (Option-cases (iterated children)) [
        | inl e ↦ rw e refl
        | inr (xs, e) ↦
            rw
              (
                e,
                same xs (
                    depth-iterated children n
                      (depth-get_or "conditions" (array nil) condition n
                        (unfold depth in omega arith) h)
                      xs e),
              )
              refl
      ]

  children-NotCutOff :
      (f : List Json → Result ConditionError Bool) (condition : Fields) (n : ℕ)
      → fields_depth condition ≤ n
      → 1 ≤ n
      → ((xs : List Json) → All (λ x. depth x ≤ n) xs → NotCutOff (f xs))
      → NotCutOff (over_children py f condition)
  unfolding over_children
  children-NotCutOff f condition n h pos fine =
      let children = get_or "conditions" (array nil) condition in
      elim (Option-cases (iterated children)) [
        | inl e ↦ ground arith
        | inr (xs, e) ↦
            let at_xs = fine xs (
              depth-iterated children n
                (depth-get_or "conditions" (array nil) condition n (unfold depth in omega arith) h)
                xs e) in
            ground arith
      ]

  -- two evaluators that agree on what is nested no deeper agree
  by_branch_same :
      (f g : Json → Result ConditionError Bool) (b : Branch) (condition facts : Fields) (n : ℕ)
      → fields_depth condition ≤ n
      → 1 ≤ n
      → ((x : Json) → depth x ≤ n → f x ≡ g x)
      → by_branch py f b condition facts ≡ by_branch py g b condition facts
  unfolding by_branch
  by_branch_same f g conjunction condition facts n h pos same =
      children_same (every f) (every g) condition n (omega arith) (omega arith)
        (λ xs d. every_same f g xs (All-map _ _ xs (λ x l. same x l) d))
  by_branch_same f g disjunction condition facts n h pos same =
      children_same (some_of f) (some_of g) condition n (omega arith) (omega arith)
        (λ xs d. some_of_same f g xs (All-map _ _ xs (λ x l. same x l) d))
  by_branch_same f g negation condition facts n h pos same = ap negated (
      same (get_or "condition" (object end) condition) (
        depth-get_or "condition" (object end) condition n (unfold depth in omega arith)
          (omega arith)))
  by_branch_same f g _ condition facts n h pos same = refl

  by_branch-NotCutOff :
      (f : Json → Result ConditionError Bool) (b : Branch) (condition facts : Fields) (n : ℕ)
      → fields_depth condition ≤ n
      → 1 ≤ n
      → ((x : Json) → depth x ≤ n → NotCutOff (f x))
      → NotCutOff (by_branch py f b condition facts)
  unfolding by_branch compare_fact has_entity_type
  by_branch-NotCutOff f conjunction condition facts n h pos fine =
      children-NotCutOff (every f) condition n (omega arith) (omega arith)
        (λ xs d. every-NotCutOff f xs (All-map _ _ xs (λ x l. fine x l) d))
  by_branch-NotCutOff f disjunction condition facts n h pos fine =
      children-NotCutOff (some_of f) condition n (omega arith) (omega arith)
        (λ xs d. some_of-NotCutOff f xs (All-map _ _ xs (λ x l. fine x l) d))
  by_branch-NotCutOff f negation condition facts n h pos fine =
      let at_child = fine (get_or "condition" (object end) condition) (
        depth-get_or "condition" (object end) condition n (unfold depth in omega arith)
          (omega arith)) in
      ground arith
  by_branch-NotCutOff f entity_type condition facts n h pos fine = ground arith
  by_branch-NotCutOff f field_value condition facts n h pos fine = ground arith
  by_branch-NotCutOff f unsupported condition facts n h pos fine = ground arith
  by_branch-NotCutOff f (counted fact) condition facts n h pos fine = ground arith

  depth_positive : (v : Json) → 1 ≤ depth v
  unfolding depth
  depth_positive (array vs) = omega arith
  depth_positive (object fs) = omega arith
  depth_positive _ = omega arith

  module _ (empty_upper : py.upper "" ≡ "") where
    -- a dictionary without a kind is refused
    empty_unsupported :
        (n : ℕ) (facts : Fields) → evaluate py (suc n) (object end) facts ≡ err unsupported_kind
    unfolding evaluate branch_of get_or get by_branch
    empty_unsupported n facts = rw (evaluate, empty_upper) refl

    evaluate_same :
        (n m : ℕ) (c : Json) (facts : Fields)
        → suc (depth c) ≤ n
        → suc (depth c) ≤ m
        → evaluate py n c facts ≡ evaluate py m c facts
    unfolding evaluate depth
    evaluate_same zero m c facts h k = ground arith
    evaluate_same (suc n) zero c facts h k = ground arith
    evaluate_same (suc n) (suc m) (object end) facts h k =
        empty_unsupported n facts ∙ sym (empty_unsupported m facts)
    evaluate_same (suc n) (suc m) (object (field j v fs)) facts h k =
        let pos = depth_positive v in
        by_branch_same (λ x. evaluate py n x facts) (λ x. evaluate py m x facts)
          (branch_of (kind_of py (field j v fs))) (field j v fs) facts
          (max (depth v) (fields_depth fs)) (omega arith) (omega arith)
          (λ x l. evaluate_same n m x facts (omega arith) (omega arith))
    evaluate_same (suc n) (suc m) _ facts h k = refl

    evaluate-NotCutOff :
        (n : ℕ) (c : Json) (facts : Fields) → suc (depth c) ≤ n → NotCutOff (evaluate py n c facts)
    unfolding evaluate depth
    evaluate-NotCutOff zero c facts h = ground arith
    evaluate-NotCutOff (suc n) (object end) facts h =
        let e = empty_unsupported n facts in ground arith
    evaluate-NotCutOff (suc n) (object (field j v fs)) facts h =
        let pos = depth_positive v in
        by_branch-NotCutOff (λ x. evaluate py n x facts) (branch_of (kind_of py (field j v fs)))
          (field j v fs) facts (max (depth v) (fields_depth fs)) (omega arith) (omega arith)
          (λ x l. evaluate-NotCutOff n x facts (omega arith))
    evaluate-NotCutOff (suc n) _ facts h = ground arith

-- evaluate_condition ends: the nesting of a condition bounds the recursion, so that its result is never
-- the cut-off one, and more fuel gives the same result; provided upper() leaves the empty text empty.
pub evaluate_condition_ends :
    (py : Builtins) (c : Json) (facts : Fields)
    → py.upper "" ≡ ""
    → (evaluate_condition py c facts ≢ err too_deep)
      × ((n : ℕ) → suc (depth c) ≤ n → evaluate py n c facts ≡ evaluate_condition py c facts)
unfolding evaluate_condition
evaluate_condition_ends py c facts u = (
  evaluate-NotCutOff py u (suc (depth c)) c facts (omega arith),
  λ n h. evaluate_same py u n (suc (depth c)) c facts h (omega arith),
)
