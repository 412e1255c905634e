-- ===== src/Common/Paging.antt =====
-- services/common.py: page_result, and a client that follows nextPage. A query is what parse_qs gives,
-- with the first value of a parameter; int() of a text is a parameter, none where it raises.
use myota_platform.Base.{
  ℕ, String, List, Option, if◌then◌else◌, ◌∷◌, ◌-◌, leb, [], suc, ◌*◌, none, zero, length, some,
  ltb, ◌+◌,
}

pub data ℤ : Type 0 where
  pos : ℕ → ℤ
  negsuc : ℕ → ℤ

abbrev pub Query : Type 0
Query = String → Option String

-- max(1, n)
abbrev pub at_least_one : ℤ → ℕ
at_least_one (pos n) = if leb n 1 then 1 else n
at_least_one (negsuc n) = 1

pub record Page {ℓ} (A : Type ℓ) : Type ℓ where
  pub items : List A
  pub page : ℕ
  pub page_size : ℕ
  pub total : ℕ
  pub next_page : Option ℕ

module _ {ℓ} {A : Type ℓ} where
  unfoldable pub take : ℕ → List A → List A
  take n [] = []
  take zero (x ∷ xs) = []
  take (suc n) (x ∷ xs) = x ∷ take n xs

  unfoldable pub drop : ℕ → List A → List A
  drop n [] = []
  drop zero (x ∷ xs) = x ∷ xs
  drop (suc n) (x ∷ xs) = drop n xs

  unfoldable pub page_of : List A → ℕ → ℕ → Page A
  unfolding take drop
  page_of xs page page_size =
      let start = (page - 1) * page_size in
      record {
        items = take page_size (drop start xs);
        page = page;
        page_size = page_size;
        total = length xs;
        next_page = if ltb (start + page_size) (length xs) then some (page + 1) else none;
      }

module _ (int_of : String → Option ℤ) where
  -- int(query.get(name, [default])[0])
  unfoldable pub int_param : String → ℕ → Query → Option ℤ
  int_param name default query = elim (query name) [ none ↦ some (pos default) | some s ↦ int_of s ]

  unfoldable pub page_result {ℓ} : {A : Type ℓ} → List A → Query → Option (Page A)
  unfolding int_param page_of
  page_result xs query = elim (int_param "page" 1 query) [
    | none ↦ none
    | some p ↦ elim (int_param "pageSize" 50 query) [
      | none ↦ none
      | some s ↦
          let size = at_least_one s in
          some (page_of xs (at_least_one p) (if leb size 100 then size else 100))
    ]
  ]
