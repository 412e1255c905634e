-- ===== src/Awards/Saves.antt =====
-- What save_award and patch_award of services/awards.py make of an award.
use mathlib.Core.Path.{subst}
use myota_platform.Awards.Lifecycle.{
  Store, save_definition, bucket_get, Caller, id_of, id_text, status_in, status_of, update,
  Database, award_of, item_of,
}
use myota_platform.Base.{
  String, ◌≡◌, some, Option-cases, inl, arith, inr, refl, true, Option, none, ◌∙◌, ap, sym, ◌∷◌, [],
  any, Bool-cases,
}
use myota_platform.Json.{Fields, field, text, end, get, get_value, Json, get_or, set_field, truthy}
use myota_platform.Base.Raise.{ok, Result-cases}
use myota_platform.Awards.Moves.{Saved, get_value-merge, may_move}
use myota_platform.Builtins.{Builtins}
use myota_platform.Awards.Saving.{
  definition_of, is_editable, definition_for, existing_or, save_award, patch_award, without_field,
  checked_parts, record_id_of,
}
use myota_platform.Awards.Drafts.{definition_for-keeps}
use myota_platform.Outbox.Routing.{is_text}
use myota_platform.Awards.Table.{
  IsKeyed, IsCanonical, item_of-keyed, save_definition-row, keyed_row,
}
use myota_platform.Awards.Handlers.{submit-Saved, review-Saved, retire-Saved, publish-Saved}

-- an editable award that keeps its status
stays :
    (old new : Fields)
    → status_in ("DRAFT" ∷ "CHANGES_REQUESTED" ∷ []) old ≡ true
    → status_of new ≡ get_or "status" (text "DRAFT") old
    → may_move (status_of old) (status_of new) ≡ true
unfolding get_value get_or
stays old new h e = elim (Option-cases (get "status" old)) [
  | inl n ↦ ground arith
  | inr (v, t) ↦
      let same : status_of new ≡ v = ground arith in
      let was : status_of old ≡ v = ground arith in rw (same, was) (unmoved v (rw was at h))
]
  where
    unmoved :
        (v : Json)
        → any (λ s. is_text v s) ("DRAFT" ∷ "CHANGES_REQUESTED" ∷ []) ≡ true
        → may_move v v ≡ true
    unmoved (text s) h = ground arith
    unmoved _ h = ground arith

-- what a save that returns has done
pub record IsDrafted (db : Database) (py : Builtins) (now new_id : String) (body : Fields)
    (store : Store) (a : Fields) (after : Store) : Type 0 where
  pub record_id : String
  pub parts : String × Fields × Fields
  pub saved : Store
  pub named : record_id_of "awardId" new_id body ≡ ok record_id
  pub editable : is_editable (item_of record_id store.definitions) ≡ true
  pub drafted :
      definition_for py now record_id parts (item_of record_id store.definitions) body store.assets
      ≡ ok a
  pub wrote : save_definition db a store ≡ ok saved
  pub left : after.definitions ≡ saved.definitions

module _ (db : Database) (py : Builtins) (caller : Caller) (store : Store) (a : Fields)
    (after : Store) (keyed : IsKeyed db store.definitions) where
  id-definition_of :
      (now record_id category : String) (version : Json) (background template : Fields)
      (existing : Option Fields) (body : Fields)
      → get_value "id"
          (definition_of py now record_id category version background template existing body)
        ≡ text record_id
  unfolding definition_of
  id-definition_of now record_id category version background template existing body =
      get_value-merge "id" (elim existing [ none ↦ end | some award ↦ award ]) _

  status-definition_of :
      (now record_id category : String) (version : Json) (background template : Fields)
      (existing : Option Fields) (body : Fields)
      → get_value "status"
          (definition_of py now record_id category version background template existing body)
        ≡ existing_or "status" (text "DRAFT") existing
  unfolding definition_of
  status-definition_of now record_id category version background template existing body =
      get_value-merge "status" (elim existing [ none ↦ end | some award ↦ award ]) _

  pub drafted_id :
      (now record_id : String) (parts : String × Fields × Fields) (existing : Option Fields)
      (body : Fields)
      → definition_for py now record_id parts existing body store.assets ≡ ok a
      → id_of a ≡ record_id
  drafted_id now record_id parts existing body d =
      let (v, i) =
        definition_for-keeps py "id" now record_id parts existing body store.assets a refl d in
      ap id_text (i ∙ id-definition_of now record_id parts.0 v parts.1 parts.2 existing body)

  pub drafted_status :
      (now record_id : String) (parts : String × Fields × Fields) (existing : Option Fields)
      (body : Fields)
      → definition_for py now record_id parts existing body store.assets ≡ ok a
      → get_value "status" a ≡ existing_or "status" (text "DRAFT") existing
  drafted_status now record_id parts existing body d =
      let (v, s) =
        definition_for-keeps py "status" now record_id parts existing body store.assets a refl d in
      s ∙ status-definition_of now record_id parts.0 v parts.1 parts.2 existing body

  pub save_award-parts :
      (now new_id : String) (body : Fields)
      → save_award py db caller now new_id body store ≡ ok (a, after)
      → IsDrafted db py now new_id body store a after
  unfolding save_award
  save_award-parts now new_id body h = elim (Result-cases (checked_parts py body)) [
    | inr (x, e) ↦ ground arith
    | inl (parts, e) ↦ elim (Result-cases (record_id_of "awardId" new_id body)) [
      | inr (x, r) ↦ ground arith
      | inl (record_id, r) ↦
          elim (Result-cases (
            definition_for py now record_id parts (item_of record_id store.definitions) body
              store.assets)) [
                | inr (x, d) ↦ ground arith
                | inl (award, d) ↦ elim (Result-cases (save_definition db award store)) [
                  | inr (x, w) ↦ ground arith
                  | inl (saved, w) ↦
                      let same : award ≡ a = ground arith in
                      record {
                        record_id = record_id;
                        parts = parts;
                        saved = saved;
                        named = r;
                        editable = ground arith;
                        drafted = d ∙ ap ok same;
                        wrote = rw (← same) w;
                        left = ground arith;
                      }
                ]
              ]
    ]
  ]

  -- the identifier that a patch saves under
  patched_id :
      (now new_id id : String) (body : Fields)
      → IsCanonical db id
      → IsCanonical db new_id
      → (k : String)
      → record_id_of "awardId" new_id (update body (field "awardId" (text id) end)) ≡ ok k
      → IsCanonical db k
  unfolding record_id_of
  patched_id now new_id id body canonical canonical' k h =
      let given = get_value-merge "awardId" body (field "awardId" (text id) end) in
      elim (Bool-cases (truthy (text id))) [
        | inl t ↦ let same : id ≡ k = ground arith in subst (IsCanonical db) same canonical
        | inr t ↦ let same : new_id ≡ k = ground arith in subst (IsCanonical db) same canonical'
      ]

  drafted-Saved :
      (now record_id : String) (parts : String × Fields × Fields) (body : Fields) (saved : Store)
      → IsCanonical db record_id
      → is_editable (item_of record_id store.definitions) ≡ true
      → definition_for py now record_id parts
          (item_of record_id store.definitions)
          body
          store.assets
        ≡ ok a
      → save_definition db a store ≡ ok saved
      → after.definitions ≡ saved.definitions
      → Saved db store after
  drafted-Saved now record_id parts body saved canonical editable d w at_after =
      let existing = item_of record_id store.definitions in
      let same_item : existing ≡ bucket_get record_id store.definitions =
        item_of-keyed db record_id store.definitions keyed in
      let same_key : id_of a ≡ record_id = drafted_id now record_id parts existing body d in
      let status_is : get_value "status" a ≡ existing_or "status" (text "DRAFT") existing =
        drafted_status now record_id parts existing body d in
      let own : IsCanonical db (id_of a) = rw same_key canonical in
      record {
        award = a;
        canonical = own;
        written = at_after ∙ save_definition-row db a (id_of a) store saved w own;
        fresh = λ n.
            let none_there : existing ≡ none = same_item ∙ (rw (← same_key) n) in
            rw (status_is, none_there) refl;
        moved = λ old at_old.
            let row : bucket_get record_id store.definitions ≡ some old = rw (← same_key) at_old in
            let there : existing ≡ some old = same_item ∙ row in
            record {
              same_id = same_key ∙ sym (keyed_row db record_id old store.definitions keyed row).0;
              moved = stays old a (rw there at editable) (rw there at status_is);
              design = λ n. ground arith;
            };
      }

  pub save-Saved :
      (now new_id : String) (body : Fields)
      → ((k : String) → record_id_of "awardId" new_id body ≡ ok k → IsCanonical db k)
      → save_award py db caller now new_id body store ≡ ok (a, after)
      → Saved db store after
  save-Saved now new_id body canonical h =
      let p = save_award-parts now new_id body h in
      drafted-Saved now p.record_id p.parts body p.saved (canonical p.record_id p.named) p.editable
        p.drafted p.wrote p.left

  pub patch-Saved :
      (now new_id id : String) (patch : Fields)
      → IsCanonical db id
      → IsCanonical db new_id
      → patch_award py db caller now new_id id patch store ≡ ok (a, after)
      → Saved db store after
  unfolding patch_award
  patch-Saved now new_id id patch canonical canonical' h =
      let body = without_field "status" patch in
      let status = get_value "status" patch in
      elim (Result-cases (award_of db id store)) [
        | inr (x, e) ↦ ground (
          arith,
          submit-Saved db caller id store a after keyed now,
          review-Saved db caller id store a after keyed now (set_field "decision" status body),
          publish-Saved db py caller store a after keyed now id body,
          retire-Saved db caller id store a after keyed body,
        )
        | inl (award, e) ↦ ground (
          arith,
          submit-Saved db caller id store a after keyed now,
          review-Saved db caller id store a after keyed now (set_field "decision" status body),
          publish-Saved db py caller store a after keyed now id body,
          retire-Saved db caller id store a after keyed body,
          save-Saved now new_id (update (update award body) (field "awardId" (text id) end))
              (patched_id now new_id id (update award body) canonical canonical'),
        )
      ]
