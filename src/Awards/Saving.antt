-- ===== src/Awards/Saving.antt =====
-- services/awards.py: save_award and patch_award. An identifier that is no text is refused (the database
-- keeps it as a uuid), and so is an asset or template that is no dictionary.
use myota_platform.Base.Raise.{Result, ok, err, ◌>>=◌, ◌>>◌, guard, or_raise}
use myota_platform.Base.{
  String, Option, List, some, Bool, ◌∷◌, if◌then◌else◌, true, [], none, str_eq, not, ◌||◌, false,
}
use myota_platform.Json.{
  Json, Fields, object, field, get_or, text, has_key, get_value, array, number, set_field, items,
  end, truthy, nil,
}
use myota_platform.Builtins.{Builtins, str_of, iso_time}
use myota_platform.Awards.Lifecycle.{
  Bucket, update, authorize, submit_award, require, Caller, review_award, status_in, Store,
  publish_award, bucket_get, item_of, Database, retire_award, with_event, save_definition, award_of,
}
use myota_platform.Awards.Design.{
  ServiceError, validate_elements, print_spec, type_error, number_of, value_error, not_positive,
}
use myota_platform.Outbox.Routing.{as_object, as_text, is_text}

-- (existing or {}).get(k, default)
abbrev pub existing_or : String → Json → Option Fields → Json
existing_or k default none = default
existing_or k default (some award) = get_or k default award

-- existing and existing.get("status") not in {...}
abbrev pub is_editable : Option Fields → Bool
is_editable none = true
is_editable (some award) = status_in ("DRAFT" ∷ "CHANGES_REQUESTED" ∷ []) award

abbrev pub save_names : List String
save_names =
    "programmeSlug" ∷ "code" ∷ "name" ∷ "category" ∷ "condition" ∷ "levels" ∷ "backgroundAsset"
    ∷ "template" ∷ []

abbrev pub default_print_spec : Json
default_print_spec = object (
    field "page" (text "A4") (field "orientation" (text "PORTRAIT") (field "dpi" (number 300) end)))

-- record[k] = body[k] if k in body
unfoldable pub copy_field : String → Fields → Fields → Fields
copy_field k body record_ =
    if has_key k body then set_field k (get_value k body) record_ else record_

-- record.get("signatureAssetId") names a registered signature, if it is set
unfoldable pub signature_ok : Fields → Bucket → Bool
signature_ok record_ assets =
    let wanted = get_value "signatureAssetId" record_ in
    if not (truthy wanted) then true else elim (as_text wanted) [
      | none ↦ false
      | some id ↦ elim (bucket_get id assets) [
        | none ↦ false
        | some asset ↦ is_text (get_value "kind" asset) "SIGNATURE"
      ]
    ]

-- body.get(key) or new_id()
unfoldable pub record_id_of : String → String → Fields → Result ServiceError String
record_id_of key new_id body =
    let given = get_value key body in
    if truthy given then or_raise (as_text given) type_error else ok new_id

-- d.pop(k, None), what is left
unfoldable pub without_field : String → Fields → Fields
without_field k end = end
without_field k (field j v fs) =
    let rest = without_field k fs in if str_eq j k then rest else field j v rest

module _ (py : Builtins) where
  -- the loop of `any` over the levels
  unfoldable pub check_levels : List Json → Result ServiceError (Unit {0})
  check_levels [] = ok tt
  check_levels (v ∷ vs) = do
    level ← or_raise (as_object v) type_error
    threshold ← number_of py (get_value "threshold" level)
    guard (not (not_positive py threshold)) value_error
    check_levels vs

  -- isinstance(levels, list) and levels and no threshold <= 0
  unfoldable pub levels_ok : Json → Result ServiceError (Unit {0})
  unfolding check_levels
  levels_ok (array vs) = check_levels (items vs)
  levels_ok _ = err value_error

  -- record["effectiveFrom"], in normal form unless it is empty
  unfoldable pub copy_effective_from : Fields → Fields → Result ServiceError Fields
  copy_effective_from body record_ =
      let given = get_value "effectiveFrom" body in
      if not (has_key "effectiveFrom" body)
      then ok record_
      else if truthy given
      then (or_raise (iso_time py given) value_error >>= λ t.
          ok (set_field "effectiveFrom" (text t) record_))
      else ok (set_field "effectiveFrom" given record_)

  -- the dictionary `record`, before its print readiness
  unfoldable pub definition_of :
      String → String → String → Json → Fields → Fields → Option Fields → Fields → Fields
  definition_of now record_id category version background template existing body =
      update (elim existing [ none ↦ end | some award ↦ award ])
        (field "id" (text record_id) (
          field "programmeSlug" (get_value "programmeSlug" body) (
            field "code" (get_value "code" body) (
              field "name" (get_value "name" body) (
                field "description" (get_or "description" (text "") body) (
                  field "category" (text category) (
                    field "version" version (
                      field "achievementMetric" (get_or "achievementMetric" (text "QSO_COUNT") body)
                        (field "condition" (get_value "condition" body) (
                          field "levels" (get_value "levels" body) (
                            field "backgroundAsset" (object background) (
                              field "printSpec" (get_or "printSpec" default_print_spec body) (
                                field "template" (object template) (
                                  field "status" (existing_or "status" (text "DRAFT") existing) (
                                    field "updatedAt" (text now) (
                                      field "createdAt"
                                        (existing_or "createdAt" (text now) existing)
                                        end))))))))))))))))

  -- the checks of save_award that need no store: category, background and template
  unfoldable pub checked_parts : Fields → Result ServiceError (String × Fields × Fields)
  unfolding levels_ok validate_elements
  checked_parts body = do
    require body save_names
    let category = py.upper (str_of py (get_value "category" body))
    guard (str_eq category "HUNTER" || str_eq category "ACTIVATOR") value_error
    levels_ok (get_value "levels" body)
    background ← or_raise (as_object (get_value "backgroundAsset" body)) type_error
    guard (is_text (get_or "kind" (text "BACKGROUND") background) "BACKGROUND") value_error
    template ← or_raise (as_object (get_value "template" body)) type_error
    validate_elements py (get_or "elements" (array nil) template)
    ok (category, background, template)

  -- the record that save_award saves
  unfoldable pub definition_for :
      String
      → String
      → String × Fields × Fields
      → Option Fields
      → Fields
      → Bucket
      → Result ServiceError Fields
  unfolding print_spec definition_of copy_field signature_ok copy_effective_from
  definition_for now record_id (category, background, template) existing body assets = do
    version ←
        or_raise (py.int_of (get_or "version" (existing_or "version" (number 1) existing) body))
          value_error
    let base = definition_of now record_id category version background template existing body
    readiness ← print_spec py background (get_value "printSpec" base)
    let ready = set_field "printReadiness" (object readiness) base
    let named = copy_field "managerName" body (copy_field "signatureAssetId" body ready)
    award ← copy_effective_from body named
    guard (signature_ok award assets) value_error
    ok award

  module _ (db : Database) where
    unfoldable pub save_award :
        Caller → String → String → Fields → Store → Result ServiceError (Fields × Store)
    unfolding authorize record_id_of item_of save_definition
    save_award caller now new_id body store = do
      authorize caller ("awards.admin" ∷ [])
      parts ← checked_parts body
      record_id ← record_id_of "awardId" new_id body
      let existing = item_of record_id store.definitions
      guard (is_editable existing) value_error
      award ← definition_for now record_id parts existing body store.assets
      saved ← save_definition db award store
      ok (award, with_event "awards.definition.saved.v1" record_id saved)

    unfoldable pub patch_award :
        Caller → String → String → String → Fields → Store → Result ServiceError (Fields × Store)
    unfolding submit_award review_award publish_award retire_award save_award without_field award_of
    patch_award caller now new_id id patch store =
        let status = get_value "status" patch in
        let body = without_field "status" patch in
        if is_text status "UNDER_REVIEW"
        then submit_award db caller now id store
        else if is_text status "APPROVED" || is_text status "CHANGES_REQUESTED"
        then review_award db caller now id (set_field "decision" status body) store
        else if is_text status "PUBLISHED"
        then publish_award db py caller now id body store
        else if is_text status "RETIRED"
        then retire_award db caller id body store
        else (award_of db id store >>= λ award.
            save_award caller now new_id
              (update (update award body) (field "awardId" (text id) end)) store)
