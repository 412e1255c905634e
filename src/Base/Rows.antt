-- ===== src/Base/Rows.antt =====
-- SQL tables as lists of rows under a primary key. An UPDATE whose WHERE names the key touches the
-- one row that has it; INSERT … ON CONFLICT DO NOTHING appends unless the key is taken.
use Prim.Native.String.{String}
use mathlib.Core.Path.{◌≡◌, refl}
use mathlib.Core.Logic.{◌≢◌, ◌⊎◌, inl, inr}
use mathlib.Core.Bool.{Bool, true, false}
use mathlib.Core.Option.{Option, none, some}
use mathlib.Core.List.{List, [], ◌∷◌, ◌++◌}
use native.Mathlib.Omega.{arith}
use text.Mathlib.Text.{◌==◌ as str_eq}
use text.Mathlib.TextEquality.{eq_iff}
use text.Mathlib.TextPositions.{eq_refl}
use myota_platform.Base.Tests.{if◌then◌else◌, String-cases, Bool-cases, Option-cases}
use myota_platform.Base.Lists.{All, find}

module _ {ℓ} {A : Type ℓ} where
  -- UPDATE t SET … WHERE w, on any number of rows
  unfoldable pub update_where : (A → Bool) → (A → A) → List A → List A
  update_where w f [] = []
  update_where w f (x ∷ xs) = (if w x then f x else x) ∷ update_where w f xs

  pub update_where-All {κ} :
      (P : A → Type κ) (w : A → Bool) (f : A → A) (xs : List A)
      → ((x : A) → P x → w x ≡ true → P (f x))
      → All P xs
      → All P (update_where w f xs)
  unfolding update_where
  update_where-All P w f [] keep h = tt
  update_where-All P w f (x ∷ xs) keep h = elim (Bool-cases (w x)) [
    | inl e ↦ rw e (keep x h.0 e, update_where-All P w f xs keep h.1)
    | inr e ↦ rw e (h.0, update_where-All P w f xs keep h.1)
  ]

  -- The same, where the property itself changes with the UPDATE.
  pub update_where-All_of {κ μ} :
      (P : A → Type κ) (Q : A → Type μ) (w : A → Bool) (f : A → A) (xs : List A)
      → ((x : A) → P x → w x ≡ true → Q (f x))
      → ((x : A) → P x → w x ≡ false → Q x)
      → All P xs
      → All Q (update_where w f xs)
  unfolding update_where
  update_where-All_of P Q w f [] hit miss h = tt
  update_where-All_of P Q w f (x ∷ xs) hit miss h = elim (Bool-cases (w x)) [
    | inl e ↦ rw e (hit x h.0 e, update_where-All_of P Q w f xs hit miss h.1)
    | inr e ↦ rw e (miss x h.0 e, update_where-All_of P Q w f xs hit miss h.1)
  ]

  -- An UPDATE that makes its own WHERE clause false leaves no row that it selects.
  pub update_where_settles :
      (w : A → Bool) (f : A → A) (xs : List A)
      → ((x : A) → w (f x) ≡ false)
      → All (λ x. w x ≡ false) (update_where w f xs)
  unfolding update_where
  update_where_settles w f [] off = tt
  update_where_settles w f (x ∷ xs) off = elim (Bool-cases (w x)) [
    | inl e ↦ rw e (off x, update_where_settles w f xs off)
    | inr e ↦ rw e (e, update_where_settles w f xs off)
  ]

  -- the row after the WHERE clause has been tried on it
  abbrev pub touched : (A → Bool) → (A → A) → Option A → Option A
  touched g f none = none
  touched g f (some x) = some (if g x then f x else x)

  -- what RETURNING gives
  abbrev pub returned : (A → Bool) → (A → A) → Option A → Option A
  returned g f none = none
  returned g f (some x) = if g x then some (f x) else none

module _ {ℓ} {A : Type ℓ} (key : A → String) where
  -- SELECT … WHERE id = k
  unfoldable pub find_row : String → List A → Option A
  find_row k [] = none
  find_row k (x ∷ xs) = if str_eq (key x) k then some x else find_row k xs

  -- UPDATE t SET … WHERE id = k AND g
  unfoldable pub update_row : String → (A → Bool) → (A → A) → List A → List A
  update_row k g f [] = []
  update_row k g f (x ∷ xs) =
      if str_eq (key x) k then (if g x then f x else x) ∷ xs else x ∷ update_row k g f xs

  module _ (k : String) (g : A → Bool) (f : A → A) (same : (x : A) → key (f x) ≡ key x) where
    -- The row under the updated key.
    pub find_row-update_row :
        (xs : List A) → find_row k (update_row k g f xs) ≡ touched g f (find_row k xs)
    unfolding find_row update_row
    find_row-update_row [] = refl
    find_row-update_row (x ∷ xs) = ground (arith, same x, find_row-update_row xs)

    -- The rows under all other keys stay.
    pub find_row-update_row_ne :
        (j : String) (xs : List A) → k ≢ j → find_row j (update_row k g f xs) ≡ find_row j xs
    unfolding find_row update_row
    find_row-update_row_ne j [] h = refl
    find_row-update_row_ne j (x ∷ xs) h =
        ground (arith, same x, eq_iff (key x) k, eq_iff (key x) j, find_row-update_row_ne j xs h)

  -- Any row of the table after an UPDATE by key.
  pub find_row_after :
      (k j : String) (g : A → Bool) (f : A → A)
      → ((x : A) → key (f x) ≡ key x)
      → (xs : List A)
      → find_row j (update_row k g f xs)
        ≡ (if str_eq k j then touched g f (find_row j xs) else find_row j xs)
  find_row_after k j g f same xs = elim (String-cases k j) [
    | inl (e, p) ↦ rw (e, ← p) (find_row-update_row k g f same xs)
    | inr (e, n) ↦ rw e (find_row-update_row_ne k g f same j xs n)
  ]

  -- An UPDATE that matches nothing changes nothing.
  pub update_row_idle :
      (k : String) (g : A → Bool) (f : A → A) (xs : List A)
      → returned g f (find_row k xs) ≡ none
      → update_row k g f xs ≡ xs
  unfolding find_row update_row
  update_row_idle k g f [] h = refl
  update_row_idle k g f (x ∷ xs) h = ground (arith, update_row_idle k g f xs)

  pub update_row-All {κ} :
      (P : A → Type κ) (k : String) (g : A → Bool) (f : A → A) (xs : List A)
      → ((x : A) → P x → g x ≡ true → P (f x))
      → All P xs
      → All P (update_row k g f xs)
  unfolding update_row
  update_row-All P k g f [] keep h = tt
  update_row-All P k g f (x ∷ xs) keep h = elim (Bool-cases (str_eq (key x) k)) [
    | inr e ↦ rw e (h.0, update_row-All P k g f xs keep h.1)
    | inl e ↦ rw e (hit (Bool-cases (g x)))
  ]
    where
      hit : (g x ≡ true) ⊎ (g x ≡ false) → All P ((if g x then f x else x) ∷ xs)
      hit (inl t) = rw t (keep x h.0 t, h.1)
      hit (inr t) = rw t h

  pub find_row-All {κ} :
      (P : A → Type κ) (k : String) (xs : List A) {x : A} → All P xs → find_row k xs ≡ some x → P x
  unfolding find_row
  find_row-All P k [] h e = cc
  find_row-All P k (y ∷ xs) h e = elim (Bool-cases (str_eq (key y) k)) [
    | inl t ↦ ground (arith, h.0)
    | inr t ↦ find_row-All P k xs h.1 (ground arith)
  ]

  -- what is found has the key
  pub find_row-key : (k : String) (xs : List A) {x : A} → find_row k xs ≡ some x → key x ≡ k
  unfolding find_row
  find_row-key k [] e = cc
  find_row-key k (y ∷ xs) {x} e = elim (Bool-cases (str_eq (key y) k)) [
    | inl t ↦ let p : y ≡ x = ground arith in rw (← p) ((eq_iff (key y) k).0 t)
    | inr t ↦ find_row-key k xs {x = x} (ground arith)
  ]

  pub find_row-append :
      (k : String) (xs ys : List A) {x : A}
      → find_row k xs ≡ some x
      → find_row k (xs ++ ys) ≡ some x
  unfolding find_row
  find_row-append k [] ys e = cc
  find_row-append k (y ∷ xs) ys {x} e = ground (arith, find_row-append k xs ys {x = x})

  -- An appended row is found, or one with its key before it.
  pub find_row-last : (x : A) (xs : List A) → (y : A) × (find_row (key x) (xs ++ x ∷ []) ≡ some y)
  unfolding find_row
  find_row-last x [] = (x, ground (arith, eq_refl (key x)))
  find_row-last x (z ∷ xs) = elim (Bool-cases (str_eq (key z) (key x))) [
    | inl e ↦ (z, rw e)
    | inr e ↦ let t = find_row-last x xs in (t.0, rw e t.1)
  ]

  -- d[x.key] = x: in the place of the row with its key, or at the end
  unfoldable pub set_row : A → List A → List A
  unfolding find_row update_row
  set_row x xs = elim (find_row (key x) xs) [
    | none ↦ xs ++ x ∷ []
    | some _ ↦ update_row (key x) (λ y. true) (λ y. x) xs
  ]

  -- INSERT … ON CONFLICT (id) DO NOTHING
  unfoldable pub insert_row : A → List A → List A
  insert_row x xs = elim (find_row (key x) xs) [ none ↦ xs ++ x ∷ [] | some _ ↦ xs ]

  pub find_row-insert_row :
      (k : String) (y : A) (xs : List A) {x : A}
      → find_row k xs ≡ some x
      → find_row k (insert_row y xs) ≡ some x
  unfolding insert_row
  find_row-insert_row k y xs {x} e = ground (arith, find_row-append k xs (y ∷ []) {x = x})

  -- After the insertion the key is there.
  pub find_row-insert_row_self :
      (y : A) (xs : List A) → (x : A) × (find_row (key y) (insert_row y xs) ≡ some x)
  unfolding insert_row
  find_row-insert_row_self y xs = elim (Option-cases (find_row (key y) xs)) [
    | inl m ↦ let t = find_row-last y xs in (t.0, rw (m, insert_row) t.1)
    | inr (x, m) ↦ (x, rw (m, insert_row) m)
  ]

-- What a search finds after an UPDATE that keeps what it looks for.
pub find-update_where {ℓ} :
    {A : Type ℓ} (p : A → Bool) (f : A → A)
    → ((x : A) → p (f x) ≡ p x)
    → (xs : List A) {x : A} → find p xs ≡ some x
    → find p (update_where p f xs) ≡ some (f x)
unfolding update_where
find-update_where p f same [] e = ground arith
find-update_where p f same (y ∷ xs) {x} e =
    ground (arith, same y, find-update_where p f same xs {x = x})
