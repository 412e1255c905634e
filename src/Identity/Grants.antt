-- ===== src/Identity/Grants.antt =====
-- The scopes that a role definition of services/identity.py grants.
use mathlib.Core.Path.{subst, sym}
use myota_platform.Base.{
  refl, true, false, none, some, inl, inr, arith, ◌∷◌, [], Option, String, All, Bool, all, ◌||◌,
  ◌≡◌, List, keep, Bool-cases, Option-cases, not, str_eq, if◌then◌else◌,
}
use myota_platform.Base.Raise.{ok}
use myota_platform.Identity.Store.{RoleDefinition}
use myota_platform.Identity.Administration.{checked_scopes, is_permission, all_texts}
use myota_platform.Identity.Definitions.{
  without_retired, template_of, with_defaults, default_role_definitions,
}
use myota_platform.Json.{Json, iterated}
use myota_platform.Identity.Roles.{sorted_set}

abbrev pub grants_known : RoleDefinition → Bool
grants_known d = all is_permission d.scopes

abbrev pub known : Option RoleDefinition → Bool
known none = true
known (some d) = d.system || grants_known d

-- the stored role definitions that are not built in hold permissions of the catalog only
abbrev pub HoldsKnown : (String → Option RoleDefinition) → Type 0
HoldsKnown definitions = (k : String) → known (definitions k) ≡ true

pub granting : (d : RoleDefinition) → grants_known d ≡ true → (d.system || grants_known d) ≡ true
granting d n = ground arith

pub checked_scopes-known :
    (v : Json) (ss : List String) → checked_scopes v ≡ ok ss → all is_permission ss ≡ true
unfolding checked_scopes
checked_scopes-known v ss h = elim (Option-cases (iterated v)) [
  | inl i ↦ ground arith
  | inr (vs, i) ↦ elim (Option-cases (all_texts vs)) [
    | inl m ↦ ground arith
    | inr (ts, m) ↦ elim (Bool-cases (all is_permission (sorted_set ts))) [
      | inr e ↦ ground arith
      | inl e ↦ let same : ss ≡ sorted_set ts = ground arith in rw same e
    ]
  ]
]

all-keep : (p q : String → Bool) (xs : List String) → all p xs ≡ true → all p (keep q xs) ≡ true
all-keep p q [] h = refl
all-keep p q (x ∷ xs) h = ground (arith, all-keep p q xs)

without_retired-known :
    (d : RoleDefinition) → grants_known d ≡ true → grants_known (without_retired d) ≡ true
unfolding without_retired
without_retired-known d h =
    all-keep is_permission (λ s. not (str_eq s "operations.read")) d.scopes h

template_of-All :
    (code : String) (ds : List (String × RoleDefinition)) (d : RoleDefinition)
    → All (λ x. x.1.system ≡ true) ds
    → template_of code ds ≡ some d
    → d.system ≡ true
unfolding template_of
template_of-All code [] d a h = cc
template_of-All code ((c, x) ∷ ds) d a h = elim (Bool-cases (str_eq c code)) [
  | inl e ↦ let same : some x ≡ some d = rw e at h in let s = a.0 in cc
  | inr e ↦ template_of-All code ds d a.1 (rw e at h)
]

templates_built_in : All (λ x. x.1.system ≡ true) default_role_definitions
templates_built_in = (refl, (refl, (refl, (refl, (refl, (refl, (refl, tt)))))))

-- a definition that is not a built-in one comes from the stored ones
pub with_defaults-known :
    (definitions : String → Option RoleDefinition) (code : String) (d : RoleDefinition)
    → HoldsKnown definitions
    → with_defaults definitions code ≡ some d
    → d.system ≡ false
    → grants_known d ≡ true
unfolding with_defaults without_retired
with_defaults-known definitions code d k h n = elim (Option-cases (definitions code)) [
  | inr (x, m) ↦
      let x_known : (x.system || grants_known x) ≡ true = rw m at (k code) in
      let same : some (without_retired x) ≡ some d = rw (with_defaults, m) at h in
      let same_ : without_retired x ≡ d = cc in
      let custom : (without_retired x).system ≡ false =
        subst (λ e. e.system ≡ false) (sym same_) n in
      subst (λ e. grants_known e ≡ true) same_ (without_retired-known x (ground arith))
  | inl m ↦ elim (Option-cases (template_of code default_role_definitions)) [
    | inl t ↦ let no_ : with_defaults definitions code ≡ none = rw (with_defaults, m, t) refl in cc
    | inr (x, t) ↦
        let same : with_defaults definitions code ≡ some (without_retired x) =
          rw (with_defaults, m, t) refl in
        let s = template_of-All code default_role_definitions x templates_built_in t in
        let same_ : without_retired x ≡ d = cc in
        let r : (without_retired x).system ≡ true = s in cc
  ]
]

-- the scopes of an edited definition, given or kept
pub edited_scopes-known :
    (b : Bool) (v : Json) (before ss : List String)
    → all is_permission before ≡ true
    → (if b then checked_scopes v else ok before) ≡ ok ss
    → all is_permission ss ≡ true
edited_scopes-known true v before ss n h = checked_scopes-known v ss h
edited_scopes-known false v before ss n h = let same : before ≡ ss = cc in rw (← same) n
