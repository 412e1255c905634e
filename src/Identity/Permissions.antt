-- ===== src/Identity/Permissions.antt =====
-- What the role definitions of services/identity.py can grant, after any requests.
use myota_platform.Base.{
  true, false, some, inl, inr, arith, List, String, ℕ, Option, ◌≡◌, Bool-cases, str_eq, not,
}
use myota_platform.Base.Raise.{or_raise-ok, guard-ok}
use myota_platform.Identity.Roles.{Platform, role_definition}
use myota_platform.Identity.Administration.{
  define_role, create_admin_role, edit_role, update_admin_role, add_role, described,
}
use myota_platform.Json.{Fields, Json, has_key, get_value}
use myota_platform.Identity.Store.{
  IdentityStore, put_account, Account, RoleDefinition, Role, add_account,
}
use myota_platform.Identity.Replacement.{replace_roles}
use myota_platform.Identity.Requests.{IdentityRequest, after_requests}
use myota_platform.Identity.Grants.{
  grants_known, HoldsKnown, with_defaults-known, edited_scopes-known, granting,
  checked_scopes-known,
}
use myota_platform.Identity.Auth.{RequestContext}
use myota_platform.Identity.Lasting.{Lasting, Changes, Lasts, requests-Lasting, audit-Lasting}
use myota_platform.Base.Effect.{
  lift_bind-Keeps, bind-Keeps, modify, modify-Keeps, lift-Keeps, state_bind-Keeps,
}
use myota_platform.Identity.Primitives.{admin-Keeps, steps}
use myota_platform.Awards.Design.{key_error, value_error}

module _ (py : Platform) where
  abbrev Limited : List Account → List Role → (String → Option RoleDefinition) → Type 0
  Limited accounts roles definitions = HoldsKnown definitions

  define-Limited :
      (k : String) (d : RoleDefinition)
      → grants_known d ≡ true
      → Lasting py Limited (modify (define_role k d))
  unfolding define_role
  define-Limited k d n =
      modify-Keeps (Lasts py Limited) _ (λ s h j. elim (Bool-cases (str_eq k j)) [
        | inl e ↦ rw e (granting d n)
        | inr e ↦ rw e (h j)
      ])

  created-Limited :
      (now : ℕ) (p : RequestContext) (body : Fields)
      → Lasting py Limited (create_admin_role py now p body)
  unfolding create_admin_role
  created-Limited now p body =
      search
        (
          lift_bind-Keeps,
          steps,
          admin-Keeps py (Lasts py Limited),
          define-Limited,
          checked_scopes-known,
          audit-Lasting py Limited,
        )
        depth 40

  described-known :
      (body : Fields) (d : RoleDefinition)
      → grants_known d ≡ true
      → grants_known (described py body d) ≡ true
  described-known body d n = elim (Bool-cases (has_key "name" body)) [
    | inl e ↦ elim (Bool-cases (has_key "description" body)) [
      | inl f ↦ rw (e, f) n
      | inr f ↦ rw (e, f) n
    ]
    | inr e ↦ elim (Bool-cases (has_key "description" body)) [
      | inl f ↦ rw (e, f) n
      | inr f ↦ rw (e, f) n
    ]
  ]

  edited-Limited :
      (now : ℕ) (k : String) (body : Fields) (d : RoleDefinition)
      → grants_known d ≡ true
      → Lasting py Limited (edit_role py now k body d)
  unfolding edit_role
  edited-Limited now k body d n =
      let changed = described-known body d n in
      bind-Keeps (Lasts py Limited) (lift-Keeps (Lasts py Limited) _) λ u.
        bind-Keeps (Lasts py Limited) (define-Limited k (described py body d) changed) λ u.
          lift_bind-Keeps (Lasts py Limited) _ λ scopes e.
            let known_ =
              edited_scopes-known (has_key "scopes" body) (get_value "scopes" body)
                (described py body d).scopes scopes changed e in
            bind-Keeps (Lasts py Limited) (define-Limited k _ known_)
              λ u. search (steps, audit-Lasting py Limited) depth 14

  updated-Limited :
      (now : ℕ) (p : RequestContext) (code : String) (body : Fields)
      → Lasting py Limited (update_admin_role py now p code body)
  unfolding update_admin_role role_definition
  updated-Limited now p code body =
      bind-Keeps (Lasts py Limited) (admin-Keeps py (Lasts py Limited) now p _) λ c.
        state_bind-Keeps (Lasts py Limited) λ s h. lift_bind-Keeps (Lasts py Limited) _ λ d e.
          lift_bind-Keeps (Lasts py Limited) _ λ u g. edited-Limited now _ body d (
            with_defaults-known s.role_definitions (py.upper (py.upper code)) d h
              (or_raise-ok _ key_error d e)
              (ground (arith, guard-ok (not d.system) value_error u g)))

  roles-Limited :
      (f : IdentityStore → List Role) → Lasting py Limited (modify (λ s. record s { roles = f s }))
  roles-Limited f = modify-Keeps (Lasts py Limited) _ (λ s h. h)

  replaces-Limited :
      (now : ℕ) (p : RequestContext) (new_id : ℕ → String) (id : String) (as_ : List Json)
      → Lasting py Limited (replace_roles py now p new_id id as_)
  unfolding replace_roles
  replaces-Limited now p new_id id as_ =
      search (steps, admin-Keeps py (Lasts py Limited), roles-Limited, audit-Lasting py Limited)
        depth 20

  changes-Limited : Changes py Limited
  unfolding put_account add_account add_role replace_roles
  changes-Limited = record {
    put_account_kept = λ a. modify-Keeps (Lasts py Limited) _ (λ s h. h);
    new_account_kept = λ a. modify-Keeps (Lasts py Limited) _ (λ s h. h);
    created_kept = created-Limited;
    updated_kept = updated-Limited;
    role_kept = λ r. modify-Keeps (Lasts py Limited) _ (λ s h. h);
    replaces_kept = replaces-Limited;
  }

-- The role definitions that administrators make never grant more than the permissions of the catalog: after
-- any requests, whoever sends them, a definition that _role_definition gives and that is not built in has
-- only scopes of ADMIN_PERMISSION_CODES, so not "*"; if that held of the stored definitions at first.
pub definitions_stay_limited :
    (py : Platform) (rs : List IdentityRequest) (s : IdentityStore) (code : String)
    (d : RoleDefinition)
    → HoldsKnown s.role_definitions
    → role_definition py code (after_requests py s rs) ≡ some d
    → d.system ≡ false
    → grants_known d ≡ true
unfolding role_definition
definitions_stay_limited py rs s code d h e n =
    let later = requests-Lasting py (Limited py) rs s (changes-Limited py) h in
    with_defaults-known (after_requests py s rs).role_definitions (py.upper code) d later e n
