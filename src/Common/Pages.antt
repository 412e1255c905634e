-- ===== src/Common/Pages.antt =====
-- A client of services/common.py's page_result that follows nextPage from the first page on.
use native.Mathlib.Nat.{zero-add, suc-add, zero-mul}
use myota_platform.Common.Paging.{
  drop, take, ℤ, Query, int_param, page_result, pos, page_of, negsuc, at_least_one, Page,
}
use myota_platform.Base.{
  String, ℕ, Option, List, length, ◌≡◌, ◌++◌, ◌-◌, ◌+◌, ◌∷◌, ◌≤◌, none, arith, suc, some, [], ap,
  zero, refl, if◌then◌else◌, ◌<◌, leb, ◌*◌, Bool-cases, ltb, inl, inr, ◌∙◌, ltb→lt, sym,
}

module _ {ℓ} {A : Type ℓ} where
  length-drop : (n : ℕ) (xs : List A) → length (drop n xs) ≡ length xs - n
  unfolding drop
  length-drop n [] = omega arith
  length-drop zero (x ∷ xs) = omega arith
  length-drop (suc n) (x ∷ xs) = omega (arith, length-drop n xs)

  drop-zero : (xs : List A) → drop zero xs ≡ xs
  unfolding drop
  drop-zero [] = refl
  drop-zero (x ∷ xs) = refl

  drop-drop : (m n : ℕ) (xs : List A) → drop n (drop m xs) ≡ drop (m + n) xs
  unfolding drop
  drop-drop m n [] = refl
  drop-drop zero n (x ∷ xs) = ap (λ k. drop k (x ∷ xs)) (sym (zero-add n))
  drop-drop (suc m) n (x ∷ xs) = drop-drop m n xs ∙ ap (λ k. drop k (x ∷ xs)) (sym (suc-add m n))

  take-drop : (n : ℕ) (xs : List A) → take n xs ++ drop n xs ≡ xs
  unfolding take drop
  take-drop n [] = refl
  take-drop zero (x ∷ xs) = refl
  take-drop (suc n) (x ∷ xs) = ap (◌∷◌ x) (take-drop n xs)

  take_all : (n : ℕ) (xs : List A) → length xs ≤ n → take n xs ≡ xs
  unfolding take
  take_all n [] h = refl
  take_all zero (x ∷ xs) h = absurd (omega arith)
  take_all (suc n) (x ∷ xs) h = ap (◌∷◌ x) (take_all n xs (omega arith))

module _ {ℓ} {A : Type ℓ} where
  -- the items of a page and what a client has from the next one on
  unfoldable pub with_next : (ℕ → Option (List A)) → Page A → Option ℕ → Option (List A)
  with_next rest r none = some r.items
  with_next rest r (some next) = elim (rest next) [ none ↦ none | some ys ↦ some (r.items ++ ys) ]

  unfoldable pub follow : (ℕ → Option (List A)) → Option (Page A) → Option (List A)
  unfolding with_next
  follow rest none = none
  follow rest (some r) = with_next rest r r.next_page

module _ {ℓ} {A : Type ℓ} (int_of : String → Option ℤ) (xs : List A) (query : ℕ → Query) where
  -- the items of a page and of all that follow it
  unfoldable pub collect : ℕ → ℕ → Option (List A)
  unfolding follow
  collect zero page = none
  collect (suc fuel) page = follow (collect fuel) (page_result int_of xs (query page))

  module _ (s : ℤ) (numbered : (p : ℕ) → int_param int_of "page" 1 (query p) ≡ some (pos p))
      (sized : (p : ℕ) → int_param int_of "pageSize" 50 (query p) ≡ some s) where
    abbrev size : ℕ
    size = if leb (at_least_one s) 100 then at_least_one s else 100

    size_positive : 0 < size
    size_positive = elim s [ pos n ↦ ground arith | negsuc n ↦ ground arith ]

    at_least_one-suc : (p : ℕ) → at_least_one (pos (p + 1)) ≡ p + 1
    at_least_one-suc p = ground arith

    page_result_lem :
        (p : ℕ) → page_result int_of xs (query (p + 1)) ≡ some (page_of xs (p + 1) size)
    unfolding page_result
    page_result_lem p = rw (page_result, numbered (p + 1), sized (p + 1), at_least_one-suc p) refl

    start_of : (p : ℕ) → (p + 1 - 1) * size ≡ p * size
    start_of p = ap (λ n. n * size) (omega arith)

    next_start : (p : ℕ) → (p + 1) * size ≡ p * size + size
    next_start p = omega arith

    collect-drop :
        (fuel p : ℕ)
        → length xs - p * size < fuel
        → collect fuel (p + 1) ≡ some (drop (p * size) xs)
    unfolding collect page_of
    collect-drop zero p h = absurd (omega arith)
    collect-drop (suc fuel) p h =
        let here = length-drop (p * size) xs in
        elim (Bool-cases (ltb (p * size + size) (length xs))) [
          | inl e ↦
              let rest = collect-drop fuel (p + 1) (
                omega
                  (arith, next_start p, size_positive, ltb→lt (p * size + size) (length xs) e)) in
              rw
                (
                  page_result_lem p,
                  start_of p,
                  e,
                  rest,
                  next_start p,
                  ← drop-drop (p * size) size xs,
                )
                (ap some (take-drop size (drop (p * size) xs)))
          | inr e ↦
              rw (collect, page_result_lem p, start_of p, e)
                (ap some (take_all size (drop (p * size) xs) (ground arith)))
        ]

-- The pages are the list: a client that asks for page 1 and follows nextPage, always with the same
-- pageSize, gets every item once and in order, whatever pageSize it names, if int() reads what it sends; it
-- stops after at most one request more than there are items.
pub pages_cover {ℓ} :
    {A : Type ℓ} (int_of : String → Option ℤ) (xs : List A) (query : ℕ → Query) (s : ℤ)
    → ((p : ℕ) → int_param int_of "page" 1 (query p) ≡ some (pos p))
    → ((p : ℕ) → int_param int_of "pageSize" 50 (query p) ≡ some s)
    → collect int_of xs query (length xs + 1) 1 ≡ some xs
pages_cover int_of xs query s numbered sized =
    collect-drop int_of xs query s numbered sized (length xs + 1) 0 (omega arith)
    ∙ ap some
        (ap (λ n. drop n xs) (zero-mul (size int_of xs query s numbered sized)) ∙ drop-zero xs)
