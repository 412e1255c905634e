-- ===== src/Identity/GlobalRoles.antt =====
-- The accounts that hold the role of a global operator: services/identity.py.
use myota_platform.Base.{
  refl, true, false, inl, inr, arith, ◌∷◌, [], List, String, update_where, Bool, any, ◌++◌, ℕ, ◌≡◌,
  str_eq, ◌||◌, not, count_where, String-cases, keep, ◌&&◌, ◌≤◌, Bool-cases, ◌+◌, eq_refl,
}
use myota_platform.Identity.Assignments.{end_roles, new_roles, Assignment, assigns_global}
use myota_platform.Identity.Store.{Role, IdentityStore}
use myota_platform.Identity.Roles.{Platform, is_global, is_valid}

-- the account has a valid role of a global operator
abbrev pub global_in : List Role → String → Bool
global_in roles id = any is_global (keep (λ r. str_eq r.account_id id && is_valid r) roles)

pub global_in-append :
    (xs ys : List Role) (id : String)
    → global_in (xs ++ ys) id ≡ (global_in xs id || global_in ys id)
global_in-append [] ys id = refl
global_in-append (x ∷ xs) ys id = ground (arith, global_in-append xs ys id)

-- the roles of another account are not touched
pub global_in-end :
    (now : ℕ) (id k : String) (roles : List Role)
    → str_eq k id ≡ false
    → global_in (end_roles now id roles) k ≡ global_in roles k
unfolding end_roles update_where
global_in-end now id k [] n = refl
global_in-end now id k (r ∷ roles) n = elim (String-cases r.account_id k) [
  | inr (e, p) ↦ elim (Bool-cases (str_eq r.account_id id && is_valid r)) [
    | inl b ↦ rw (b, e) (global_in-end now id k roles n)
    | inr b ↦ rw (b, e) (global_in-end now id k roles n)
  ]
  | inl (e, p) ↦
      let other : str_eq r.account_id id ≡ false = rw p n in
      rw other (ground (arith, global_in-end now id k roles n))
]

pub new_roles-global :
    (py : Platform) (now : ℕ) (new_id : ℕ → String) (n : ℕ) (id : String) (s : IdentityStore)
    (as_ : List Assignment)
    → assigns_global as_ ≡ true
    → global_in (new_roles py now new_id n id s as_) id ≡ true
unfolding new_roles
new_roles-global py now new_id n id s [] h = cc
new_roles-global py now new_id n id s (a ∷ as_) h =
    ground (arith, new_roles-global py now new_id (n + 1) id s as_, eq_refl id)

module _ (id : String) where
  -- an identifier other than this one has a property
  abbrev pub other_has : (String → Bool) → List String → Bool
  other_has g ks = any (λ k. not (str_eq k id) && g k) ks

  pub count-other :
      (g : String → Bool) (ks : List String)
      → other_has g ks ≡ false
      → count_where g ks ≤ count_where (λ k. str_eq k id) ks
  count-other g [] h = omega arith
  count-other g (k ∷ ks) h = ground (arith, count-other g ks)

  pub other-any :
      (g g' : String → Bool) (ks : List String)
      → ((k : String) → str_eq k id ≡ false → g k ≡ true → g' k ≡ true)
      → other_has g ks ≡ true
      → any g' ks ≡ true
  other-any g g' [] f h = cc
  other-any g g' (k ∷ ks) f h = ground (arith, other-any g g' ks f, f k)

  -- if no other one has it, then this one does, and is in the list
  pub only-any :
      (g g' : String → Bool) (ks : List String)
      → any g ks ≡ true
      → other_has g ks ≡ false
      → (g id ≡ true) × (g' id ≡ true → any g' ks ≡ true)
  only-any g g' [] h n = absurd cc
  only-any g g' (k ∷ ks) h n = elim (String-cases k id) [
    | inr (e, p) ↦
        let rest = only-any g g' ks (ground arith) (ground arith) in
        (rest.0, λ x. ground (arith, rest.1))
    | inl (e, p) ↦ elim (Bool-cases (g k)) [
      | inl y ↦ (rw (← p) y, λ x. let at_k : g' k ≡ true = rw p x in ground arith)
      | inr y ↦
          let rest = only-any g g' ks (ground arith) (ground arith) in
          (rest.0, λ x. ground (arith, rest.1))
    ]
  ]
