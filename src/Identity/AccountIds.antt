-- ===== src/Identity/AccountIds.antt =====
-- The identifiers of the accounts in the state of services/identity.py.
use myota_platform.Base.{
  refl, true, none, inl, inr, arith, ◌∷◌, [], List, update_row, String, find_row, set_row, Bool,
  map, ◌≡◌, count_where, any, String-cases, ◌++◌, str_eq, Option-cases, ap, ◌+◌, ◌≤◌, sym,
  if◌then◌else◌,
}
use myota_platform.Identity.Store.{Account}

abbrev pub ids_in : List Account → List String
ids_in accounts = map (λ a. a.id) accounts

pub ids_in-update :
    (a : Account) (accounts : List Account)
    → ids_in (update_row (λ b. b.id) a.id (λ b. true) (λ b. a) accounts) ≡ ids_in accounts
unfolding update_row
ids_in-update a [] = refl
ids_in-update a (b ∷ bs) = elim (String-cases b.id a.id) [
  | inl (e, p) ↦ rw e (ap (λ k. k ∷ ids_in bs) (sym p))
  | inr (e, p) ↦ rw e (ap (◌∷◌ b.id) (ids_in-update a bs))
]

pub count_where-map :
    (g : String → Bool) (accounts : List Account)
    → count_where (λ a. g a.id) accounts ≡ count_where g (ids_in accounts)
count_where-map g [] = refl
count_where-map g (a ∷ as_) = omega (arith, count_where-map g as_)

count-append :
    (g : String → Bool) (a : Account) (accounts : List Account)
    → count_where g (ids_in (accounts ++ a ∷ []))
      ≡ count_where g (ids_in accounts) + (if g a.id then 1 else 0)
count-append g a [] = omega arith
count-append g a (b ∷ bs) = omega (arith, count-append g a bs)

any-append :
    (g : String → Bool) (a : Account) (accounts : List Account)
    → any g (ids_in accounts) ≡ true
    → any g (ids_in (accounts ++ a ∷ [])) ≡ true
any-append g a [] h = cc
any-append g a (b ∷ bs) h = ground (arith, any-append g a bs)

count-absent :
    (k : String) (accounts : List Account)
    → find_row (λ b. b.id) k accounts ≡ none
    → count_where (λ j. str_eq j k) (ids_in accounts) ≡ 0
unfolding find_row
count-absent k [] h = refl
count-absent k (b ∷ bs) h = ground (arith, count-absent k bs)

-- an account that is added has a new identifier, or takes the place of the one with the same identifier
pub count-set :
    (a : Account) (k : String) (accounts : List Account)
    → count_where (λ j. str_eq j k) (ids_in accounts) ≤ 1
    → count_where (λ j. str_eq j k) (ids_in (set_row (λ b. b.id) a accounts)) ≤ 1
unfolding set_row
count-set a k accounts h = elim (Option-cases (find_row (λ b. b.id) a.id accounts)) [
  | inr (b, m) ↦ rw (set_row, m, ids_in-update a accounts) h
  | inl m ↦ elim (String-cases a.id k) [
    | inl (e, p) ↦
        let none_ : count_where (λ j. str_eq j k) (ids_in accounts) ≡ 0 =
          rw p at (count-absent a.id accounts m) in
        rw (set_row, m, count-append (λ j. str_eq j k) a accounts, e, none_) (omega arith)
    | inr (e, p) ↦ rw (set_row, m, count-append (λ j. str_eq j k) a accounts, e) (omega arith)
  ]
]

pub any-set :
    (g : String → Bool) (a : Account) (accounts : List Account)
    → any g (ids_in accounts) ≡ true
    → any g (ids_in (set_row (λ b. b.id) a accounts)) ≡ true
unfolding set_row
any-set g a accounts h = elim (Option-cases (find_row (λ b. b.id) a.id accounts)) [
  | inr (b, m) ↦ rw (set_row, m, ids_in-update a accounts) h
  | inl m ↦ rw (set_row, m) (any-append g a accounts h)
]

pub any_mono :
    (g g' : String → Bool) (ks : List String)
    → ((k : String) → g k ≡ true → g' k ≡ true)
    → any g ks ≡ true
    → any g' ks ≡ true
any_mono g g' [] f h = cc
any_mono g g' (k ∷ ks) f h = ground (arith, any_mono g g' ks f, f k)
