-- ===== src/Base/Sort.antt =====
-- ORDER BY and sorted(): a stable insertion sort by a test `before`.
use mathlib.Core.Bool.{Bool}
use mathlib.Core.Logic.{inl, inr}
use mathlib.Core.List.{List, [], ◌∷◌}
use myota_platform.Base.Tests.{if◌then◌else◌, Bool-cases}
use myota_platform.Base.Lists.{All}

module _ {ℓ} {A : Type ℓ} (before : A → A → Bool) where
  unfoldable pub insert_sorted : A → List A → List A
  insert_sorted x [] = x ∷ []
  insert_sorted x (y ∷ ys) = if before y x then y ∷ insert_sorted x ys else x ∷ y ∷ ys

  -- from the right, and before the first that is not smaller: equal elements keep their order
  unfoldable pub sort : List A → List A
  unfolding insert_sorted
  sort [] = []
  sort (x ∷ xs) = insert_sorted x (sort xs)

  module _ {κ} (P : A → Type κ) where
    insert_sorted-All : (x : A) (ys : List A) → All P (insert_sorted x ys) → P x × All P ys
    unfolding insert_sorted
    insert_sorted-All x [] h = h
    insert_sorted-All x (y ∷ ys) h = elim (Bool-cases (before y x)) [
      | inr e ↦ rw e at h
      | inl e ↦
          let h' : P y × All P (insert_sorted x ys) = rw e at h in
          let t = insert_sorted-All x ys h'.1 in (t.0, (h'.0, t.1))
    ]

    -- What holds of all elements in order holds of all elements.
    pub sort-All : (xs : List A) → All P (sort xs) → All P xs
    unfolding sort
    sort-All [] h = tt
    sort-All (x ∷ xs) h = let t = insert_sorted-All x (sort xs) h in (t.0, sort-All xs t.1)
