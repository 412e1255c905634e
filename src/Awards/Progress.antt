-- ===== src/Awards/Progress.antt =====
-- What an award counts can only bring it nearer: evaluate_condition of services/awards.py on facts that
-- grow.
use myota_platform.Builtins.{Builtins, str_of}
use myota_platform.Json.{
  Json, Fields, iterated, get_or, array, object, number, nil, text, truthy, depth,
}
use myota_platform.Base.Raise.{Result, ok}
use myota_platform.Awards.Condition.{
  every, some_of, ConditionError, Branch, compare_fact, over_children, operator_of, operator,
  branch_of, kind_of, counted, conjunction, disjunction, negation, entity_type, field_value,
  unsupported, has_entity_type, by_branch, evaluate, evaluate_condition,
}
use myota_platform.Base.{
  ◌≡◌, Bool, ℕ, true, Option, str_eq, false, String, List, some, suc, All, all, ◌||◌, ◌∷◌,
  Option-cases, none, ◌&&◌, arith, inl, [], inr, Bool-cases, not, zero, refl, any,
}
use myota_platform.Jobs.Leases.{is_some}

-- the comparisons of floating-point numbers, as far as they are relied on
pub record IsOrdered (py : Builtins) : Type 0 where
  pub ge_ge : (x y e : py.number_type) → py.ge y x ≡ true → py.ge x e ≡ true → py.ge y e ≡ true
  pub ge_gt : (x y e : py.number_type) → py.ge y x ≡ true → py.gt x e ≡ true → py.gt y e ≡ true

abbrev pub all_iterated : (Json → Bool) → Option (List Json) → Bool
all_iterated p none = false
all_iterated p (some xs) = all p xs

module _ (py : Builtins) where
  -- >= or >, with a number
  unfoldable pub compares_up : Fields → Bool
  compares_up condition =
      (str_eq (operator_of py condition) "GTE" || str_eq (operator_of py condition) "GT")
      && is_some (py.float (get_or "value" (number 0) condition))

  unfoldable pub rising_branch : (Json → Bool) → Branch → Fields → Bool
  rising_branch nested conjunction condition =
      all_iterated nested (iterated (get_or "conditions" (array nil) condition))
  rising_branch nested disjunction condition =
      all_iterated nested (iterated (get_or "conditions" (array nil) condition))
  rising_branch nested negation condition = false
  rising_branch nested entity_type condition =
      is_some (iterated (get_or "values" (array nil) condition))
  rising_branch nested field_value condition =
      not (str_eq (str_of py (get_or "field" (text "") condition)) "entityType")
      && compares_up condition
  rising_branch nested unsupported condition = false
  rising_branch nested (counted fact) condition =
      not (str_eq fact "entityType") && compares_up condition

  -- a well-formed condition without NOT that compares only by >= and >
  unfoldable pub is_rising : ℕ → Json → Bool
  is_rising zero condition = false
  is_rising (suc n) (object condition) =
      rising_branch (is_rising n) (branch_of (kind_of py condition)) condition
  is_rising (suc n) _ = false

  -- every count is a number that has not become smaller, and the type of entity is the same
  abbrev pub Grows : Fields → Fields → Type 0
  Grows facts facts' =
      ((k : String)
        → str_eq k "entityType" ≡ false
        → (x y : py.number_type) × (py.float (get_or k (number 0) facts) ≡ some x)
          × (py.float (get_or k (number 0) facts') ≡ some y)
          × (py.ge y x ≡ true))
      × (get_or "entityType" (text "") facts ≡ get_or "entityType" (text "") facts')

-- both are answers, and the second is True where the first is
abbrev pub Improves : Result ConditionError Bool → Result ConditionError Bool → Type 0
Improves r r' = (b b' : Bool) × (r ≡ ok b) × (r' ≡ ok b') × (b ≡ true → b' ≡ true)

every-Improves :
    (f g : Json → Result ConditionError Bool) (xs : List Json)
    → All (λ x. Improves (f x) (g x)) xs
    → Improves (every f xs) (every g xs)
unfolding every
every-Improves f g [] h = (true, true, refl, refl, λ t. refl)
every-Improves f g (x ∷ xs) ((b, b', p, q, up), h) = combine b b' p q up (every-Improves f g xs h)
  where
    combine :
        (b b' : Bool)
        → f x ≡ ok b
        → g x ≡ ok b'
        → (b ≡ true → b' ≡ true)
        → Improves (every f xs) (every g xs)
        → Improves (every f (x ∷ xs)) (every g (x ∷ xs))
    combine true true p q up (c, c', r, r', over) = (c, c', ground arith, ground arith, over)
    combine true false p q up h = ground arith
    combine false true p q up (c, c', r, r', over) =
        (false, c', ground arith, ground arith, λ t. ground arith)
    combine false false p q up h = (false, false, ground arith, ground arith, λ t. t)

some_of-Improves :
    (f g : Json → Result ConditionError Bool) (xs : List Json)
    → All (λ x. Improves (f x) (g x)) xs
    → Improves (some_of f xs) (some_of g xs)
unfolding some_of
some_of-Improves f g [] h = (false, false, refl, refl, λ t. t)
some_of-Improves f g (x ∷ xs) ((b, b', p, q, up), h) =
    combine b b' p q up (some_of-Improves f g xs h)
  where
    combine :
        (b b' : Bool)
        → f x ≡ ok b
        → g x ≡ ok b'
        → (b ≡ true → b' ≡ true)
        → Improves (some_of f xs) (some_of g xs)
        → Improves (some_of f (x ∷ xs)) (some_of g (x ∷ xs))
    combine true true p q up h = (true, true, ground arith, ground arith, λ t. t)
    combine true false p q up h = ground arith
    combine false true p q up (c, c', r, r', over) =
        (c, true, ground arith, ground arith, λ t. refl)
    combine false false p q up (c, c', r, r', over) = (c, c', ground arith, ground arith, over)

module _ (py : Builtins) (law : IsOrdered py) (facts facts' : Fields)
    (grows : Grows py facts facts') where
  compare-Improves :
      (fact : String) (condition : Fields)
      → str_eq fact "entityType" ≡ false
      → compares_up py condition ≡ true
      → Improves (compare_fact py fact condition facts) (compare_fact py fact condition facts')
  unfolding compare_fact operator compares_up
  compare-Improves fact condition n h =
      let (x, y, p, q, ge) = grows.0 fact n in
      elim (Option-cases (py.float (get_or "value" (number 0) condition))) [
        | inl e ↦ ground arith
        | inr (e, is) ↦ (
          operator py x (operator_of py condition) e,
          operator py y (operator_of py condition) e,
          ground arith,
          ground arith,
          λ t. let a = law.ge_ge x y e ge in let b = law.ge_gt x y e ge in ground arith,
        )
      ]

  children-Improves :
      (f : (Json → Result ConditionError Bool) → List Json → Result ConditionError Bool)
      (ev ev' : Json → Result ConditionError Bool) (nested : Json → Bool) (condition : Fields)
      → all_iterated nested (iterated (get_or "conditions" (array nil) condition)) ≡ true
      → ((xs : List Json) → all nested xs ≡ true → Improves (f ev xs) (f ev' xs))
      → Improves (over_children py (f ev) condition) (over_children py (f ev') condition)
  unfolding over_children
  children-Improves f ev ev' nested condition h up =
      let children = get_or "conditions" (array nil) condition in
      elim (Bool-cases (truthy children)) [
        | inr t ↦ rw t (false, false, refl, refl, λ t. t)
        | inl t ↦ elim (Option-cases (iterated children)) [
          | inl e ↦ ground arith
          | inr (xs, e) ↦ let at_xs = up xs (ground arith) in rw (t, e) at_xs
        ]
      ]

  all-Improves :
      (ev ev' : Json → Result ConditionError Bool) (nested : Json → Bool)
      → ((x : Json) → nested x ≡ true → Improves (ev x) (ev' x))
      → (xs : List Json) → all nested xs ≡ true
      → All (λ x. Improves (ev x) (ev' x)) xs
  all-Improves ev ev' nested up [] h = tt
  all-Improves ev ev' nested up (x ∷ xs) h =
      (up x (ground arith), all-Improves ev ev' nested up xs (ground arith))

  type-Improves :
      (condition : Fields)
      → is_some (iterated (get_or "values" (array nil) condition)) ≡ true
      → Improves (has_entity_type py condition facts) (has_entity_type py condition facts')
  unfolding has_entity_type
  type-Improves condition h =
      elim (Option-cases (iterated (get_or "values" (array nil) condition))) [
        | inl e ↦ ground arith
        | inr (xs, e) ↦
            let answer : Fields → Bool = λ fs.
              any (λ v. str_eq (str_of py v) (str_of py (get_or "entityType" (text "") fs))) xs in
            (answer facts, answer facts, rw e refl, rw (e, grows.1) refl, λ t. t)
      ]

  branch-Improves :
      (ev ev' : Json → Result ConditionError Bool) (nested : Json → Bool) (b : Branch)
      (condition : Fields)
      → rising_branch py nested b condition ≡ true
      → ((x : Json) → nested x ≡ true → Improves (ev x) (ev' x))
      → Improves (by_branch py ev b condition facts) (by_branch py ev' b condition facts')
  unfolding by_branch rising_branch
  branch-Improves ev ev' nested conjunction condition h up =
      children-Improves every ev ev' nested condition h
        (λ xs a. every-Improves ev ev' xs (all-Improves ev ev' nested up xs a))
  branch-Improves ev ev' nested disjunction condition h up =
      children-Improves some_of ev ev' nested condition h
        (λ xs a. some_of-Improves ev ev' xs (all-Improves ev ev' nested up xs a))
  branch-Improves ev ev' nested negation condition h up = ground arith
  branch-Improves ev ev' nested entity_type condition h up = type-Improves condition h
  branch-Improves ev ev' nested field_value condition h up =
      compare-Improves (str_of py (get_or "field" (text "") condition)) condition (ground arith)
        (ground arith)
  branch-Improves ev ev' nested unsupported condition h up = ground arith
  branch-Improves ev ev' nested (counted fact) condition h up =
      compare-Improves fact condition (ground arith) (ground arith)

  evaluate-Improves :
      (n : ℕ) (c : Json)
      → is_rising py n c ≡ true
      → Improves (evaluate py n c facts) (evaluate py n c facts')
  unfolding evaluate is_rising
  evaluate-Improves zero c h = ground arith
  evaluate-Improves (suc n) (object condition) h =
      branch-Improves (λ x. evaluate py n x facts) (λ x. evaluate py n x facts') (is_rising py n)
        (branch_of (kind_of py condition)) condition h (λ x r. evaluate-Improves n x r)
  evaluate-Improves (suc n) _ h = ground arith

-- Awards are not lost by doing more: a well-formed condition that is built without NOT and compares only
-- by >= and > is evaluated without an exception on facts that are numbers, and once it is met, it is met
-- by all facts with the same type of entity whose counts are no smaller; provided >= and > chain as they
-- do on numbers.
pub progress_is_kept :
    (py : Builtins) (c : Json) (facts facts' : Fields)
    → IsOrdered py
    → Grows py facts facts'
    → is_rising py (suc (depth c)) c ≡ true
    → Improves (evaluate_condition py c facts) (evaluate_condition py c facts')
unfolding evaluate_condition
progress_is_kept py c facts facts' law grows h =
    evaluate-Improves py law facts facts' grows (suc (depth c)) c h
