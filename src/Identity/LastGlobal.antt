-- ===== src/Identity/LastGlobal.antt =====
-- The last global operator of services/identity.py.
use myota_platform.Base.{
  refl, true, false, inl, inr, arith, ◌∷◌, [], List, Bool, ◌≡◌, String, ℕ, Option, not, count_where,
  ◌&&◌, str_eq, ◌≤◌, ◌++◌, leb, any, Bool-cases,
}
use myota_platform.Identity.Roles.{Platform, roles_of}
use myota_platform.Identity.Store.{
  Account, put_account, add_account, Role, IdentityStore, RoleDefinition, audit,
}
use myota_platform.Identity.Administration.{
  add_role, define_role, create_admin_role, edit_role, update_admin_role,
}
use myota_platform.Identity.Assignments.{
  global_count, Assignment, assigns_global, end_roles, new_roles, normalized,
}
use myota_platform.Identity.Replacement.{replace_roles}
use myota_platform.Identity.Lasting.{Changes, Lasting, Lasts, requests-Lasting, audit-Lasting}
use myota_platform.Identity.Requests.{IdentityRequest, after_requests}
use myota_platform.Base.Effect.{◌>>=◌, modify, state, modify-Keeps, lift, pure, bind-Keeps}
use myota_platform.Identity.Auth.{RequestContext}
use myota_platform.Json.{Fields, Json}
use myota_platform.Identity.AccountIds.{
  ids_in-update, count-set, any_mono, ids_in, any-set, count_where-map,
}
use myota_platform.Identity.Sessions.{is_global_operator}
use myota_platform.Identity.GlobalRoles.{
  global_in, global_in-append, global_in-end, other_has, other-any, only-any, count-other,
  new_roles-global,
}
use myota_platform.Identity.Primitives.{admin-Keeps, steps}
use myota_platform.Base.Raise.{Result-cases}

-- no identifier stands twice, and some account holds the role of a global operator
abbrev pub HasGlobal : List Account → List Role → (String → Option RoleDefinition) → Type 0
HasGlobal accounts roles definitions =
    ((k : String) → count_where (λ j. str_eq j k) (ids_in accounts) ≤ 1)
    × (any (global_in roles) (ids_in accounts) ≡ true)

module _ (py : Platform) where
  put_account-Global : (a : Account) → Lasting py HasGlobal (modify (put_account a))
  unfolding put_account
  put_account-Global a =
      modify-Keeps (Lasts py HasGlobal) _ (λ s h. rw (ids_in-update a s.accounts) h)

  add_account-Global : (a : Account) → Lasting py HasGlobal (modify (add_account a))
  unfolding add_account
  add_account-Global a = modify-Keeps (Lasts py HasGlobal) _ (λ s h.
      ((λ k. count-set a k s.accounts (h.0 k)), any-set (global_in s.roles) a s.accounts h.1))

  add_role-Global : (r : Role) → Lasting py HasGlobal (modify (add_role r))
  unfolding add_role
  add_role-Global r = modify-Keeps (Lasts py HasGlobal) _ (λ s h. (
    h.0,
    any_mono (global_in s.roles) (global_in (s.roles ++ r ∷ [])) (ids_in s.accounts)
        (λ k g. rw (global_in-append s.roles (r ∷ []) k, g) refl) h.1,
  ))

  refused_ : {a b c : Bool} → a ≡ true → b ≡ false → c ≡ true → not (a && not b && c) ≡ true → ⊥
  refused_ p q r h = let no_ : not (true && not false && true) ≡ true = rw (p, q, r) at h in cc

  -- what the check of _replace_roles is for
  replaced-Global :
      (now : ℕ) (new_id : ℕ → String) (id : String) (s : IdentityStore) (as_ : List Assignment)
      → Lasts py HasGlobal s
      → not (is_global_operator s id && not (assigns_global as_) && leb (global_count s) 1) ≡ true
      → any
          (global_in (end_roles now id s.roles ++ new_roles py now new_id 0 id s as_))
          (ids_in s.accounts)
        ≡ true
  unfolding global_count roles_of
  replaced-Global now new_id id s as_ h safe =
      let g = global_in s.roles in
      let roles = new_roles py now new_id 0 id s as_ in
      let g' = global_in (end_roles now id s.roles ++ roles) in
      let kept : (k : String) → str_eq k id ≡ false → g k ≡ true → g' k ≡ true = λ k n y.
        rw
          (global_in-append (end_roles now id s.roles) roles k, global_in-end now id k s.roles n, y)
          refl in
      elim (Bool-cases (other_has id g (ids_in s.accounts))) [
        | inl y ↦ other-any id g g' (ids_in s.accounts) kept y
        | inr n ↦
            let only = only-any id g g' (ids_in s.accounts) h.1 n in
            let few = count-other id g (ids_in s.accounts) n in
            let one = h.0 id in
            let counted : global_count s ≡ count_where g (ids_in s.accounts) =
              count_where-map g s.accounts in
            let alone : leb (global_count s) 1 ≡ true = ground (arith, few, one, counted) in
            let holds : is_global_operator s id ≡ true = only.0 in
            elim (Bool-cases (assigns_global as_)) [
              | inr m ↦ absurd (refused_ holds m alone safe)
              | inl m ↦ only.1 (
                  rw
                    (
                      global_in-append (end_roles now id s.roles) roles id,
                      new_roles-global py now new_id 0 id s as_ m,
                    )
                    (ground arith))
            ]
      ]

  replaces-Global :
      (now : ℕ) (p : RequestContext) (new_id : ℕ → String) (id : String) (as_ : List Json)
      → Lasting py HasGlobal (replace_roles py now p new_id id as_)
  unfolding replace_roles ◌>>=◌ state lift modify pure audit
  replaces-Global now p new_id id as_ =
      bind-Keeps (Lasts py HasGlobal) (admin-Keeps py (Lasts py HasGlobal) now p _) λ claims.
        record {
          kept = λ s h. elim (Result-cases (normalized py claims s as_)) [
            | inr (x, e) ↦ rw e h
            | inl (xs, e) ↦
                elim (Bool-cases (
                  not (
                    is_global_operator s id
                    && not (assigns_global xs)
                    && leb (global_count s) 1))) [
                      | inr b ↦ rw (e, b) h
                      | inl b ↦ rw (e, b) (h.0, replaced-Global now new_id id s xs h b)
                    ]
          ];
        }

  define-Global :
      (k : String) (d : RoleDefinition) → Lasting py HasGlobal (modify (define_role k d))
  unfolding define_role
  define-Global k d = modify-Keeps (Lasts py HasGlobal) _ (λ s h. h)

  created-Global :
      (now : ℕ) (p : RequestContext) (body : Fields)
      → Lasting py HasGlobal (create_admin_role py now p body)
  unfolding create_admin_role
  created-Global now p body =
      search (steps, admin-Keeps py (Lasts py HasGlobal), define-Global, audit-Lasting py HasGlobal)
        depth 30

  edited-Global :
      (now : ℕ) (k : String) (body : Fields) (d : RoleDefinition)
      → Lasting py HasGlobal (edit_role py now k body d)
  unfolding edit_role
  edited-Global now k body d = search (steps, define-Global, audit-Lasting py HasGlobal) depth 30

  updated-Global :
      (now : ℕ) (p : RequestContext) (code : String) (body : Fields)
      → Lasting py HasGlobal (update_admin_role py now p code body)
  unfolding update_admin_role
  updated-Global now p code body =
      search (steps, admin-Keeps py (Lasts py HasGlobal), edited-Global) depth 30

  changes-Global : Changes py HasGlobal
  changes-Global = record {
    put_account_kept = put_account-Global;
    new_account_kept = add_account-Global;
    created_kept = created-Global;
    updated_kept = updated-Global;
    role_kept = add_role-Global;
    replaces_kept = replaces-Global;
  }

-- The last global operator stays: whatever requests are served, whoever sends them and however they end,
-- some account holds the role of a global operator, and no two accounts have the same identifier; if that
-- held at first.
pub global_operator_stays :
    (py : Platform) (rs : List IdentityRequest) (s : IdentityStore)
    → HasGlobal s.accounts s.roles s.role_definitions
    → let later = after_requests py s rs in
      HasGlobal later.accounts later.roles later.role_definitions
global_operator_stays py rs s h = requests-Lasting py HasGlobal rs s (changes-Global py) h
