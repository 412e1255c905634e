-- ===== src/Awards/Drafts.antt =====
-- What save_award of services/awards.py saves: a new draft, or an editable award under its identifier and
-- with its status.
use myota_platform.Base.Raise.{Result-cases, ok}
use myota_platform.Awards.Saving.{
  copy_field, copy_effective_from, definition_for, definition_of, existing_or,
}
use myota_platform.Builtins.{Builtins, iso_time}
use myota_platform.Base.{
  String, str_eq, Option, ◌≡◌, false, ◌||◌, arith, Option-cases, inl, inr, ◌∙◌,
}
use myota_platform.Json.{Fields, get_value, Json, set_field, text, object, get_or, number}
use myota_platform.Awards.Lifecycle.{Bucket}
use myota_platform.Awards.Moves.{get_value-set_field}
use myota_platform.Awards.Design.{print_spec}

copy_field-other :
    (k j : String) (body r : Fields)
    → str_eq k j ≡ false
    → get_value j (copy_field k body r) ≡ get_value j r
unfolding copy_field
copy_field-other k j body r n = ground (arith, get_value-set_field j k (get_value k body) r)

module _ (py : Builtins) where
  copy_effective_from-other :
      (j : String) (body r a : Fields)
      → str_eq "effectiveFrom" j ≡ false
      → copy_effective_from py body r ≡ ok a
      → get_value j a ≡ get_value j r
  unfolding copy_effective_from
  copy_effective_from-other j body r a n h =
      elim (Option-cases (iso_time py (get_value "effectiveFrom" body))) [
        | inl e ↦
            ground (arith, get_value-set_field j "effectiveFrom" (get_value "effectiveFrom" body) r)
        | inr (t, e) ↦ ground (
          arith,
          get_value-set_field j "effectiveFrom" (text t) r,
          get_value-set_field j "effectiveFrom" (get_value "effectiveFrom" body) r,
        )
      ]

  -- the fields of `record` that nothing after it touches
  pub definition_for-keeps :
      (j now record_id : String) (parts : String × Fields × Fields) (existing : Option Fields)
      (body : Fields) (assets : Bucket) (a : Fields)
      → str_eq "effectiveFrom" j
          || (str_eq "managerName" j || (str_eq "signatureAssetId" j || str_eq "printReadiness" j))
        ≡ false
      → definition_for py now record_id parts existing body assets ≡ ok a
      → (version : Json) × (get_value j a
          ≡ get_value j
              (definition_of py now record_id parts.0 version parts.1 parts.2 existing body))
  unfolding definition_for
  definition_for-keeps j now record_id parts existing body assets a n h =
      elim (Option-cases
        (py.int_of (get_or "version" (existing_or "version" (number 1) existing) body))) [
          | inl e ↦ ground arith
          | inr (version, e) ↦
              let base =
                definition_of py now record_id parts.0 version parts.1 parts.2 existing body in
              elim (Result-cases (print_spec py parts.1 (get_value "printSpec" base))) [
                | inr (x, p) ↦ ground arith
                | inl (readiness, p) ↦
                    let ready = set_field "printReadiness" (object readiness) base in
                    let signed = copy_field "signatureAssetId" body ready in
                    let named = copy_field "managerName" body signed in
                    let last : copy_effective_from py body named ≡ ok a = ground arith in
                    (
                      version,
                      copy_effective_from-other j body named a (ground arith) last
                          ∙ copy_field-other "managerName" j body signed (ground arith)
                          ∙ copy_field-other "signatureAssetId" j body ready (ground arith)
                          ∙ get_value-set_field j "printReadiness" (object readiness) base
                          ∙ ground arith,
                    )
              ]
        ]
