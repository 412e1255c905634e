-- ===== src/Awards/Spellings.antt =====
-- save_award of services/awards.py under another way to write the uuid of an award.
use myota_platform.Base.{refl, none, some, String, ◌≡◌, ◌≢◌, sym, ◌∙◌, ap, eq_refl}
use myota_platform.Base.Raise.{ok, Result}
use myota_platform.Awards.Lifecycle.{Database, Caller, Store, bucket_get, status_of, item_of, id_of}
use myota_platform.Awards.Design.{ServiceError}
use myota_platform.Builtins.{Builtins}
use myota_platform.Json.{Fields, text}
use myota_platform.Awards.Table.{
  IsKeyed, item_of-keyed, other_spelling, save_definition-row, bucket_get-bucket_set,
}
use myota_platform.Awards.Saving.{record_id_of, save_award}
use myota_platform.Awards.Saves.{save_award-parts, drafted_id, drafted_status}

ok_same : {x y : String} → ◌≡◌ {A = Result ServiceError String} (ok x) (ok y) → x ≡ y
ok_same h = cc

-- An award whose uuid is written in another way than the database writes it is not found by save_award but
-- overwritten: whatever the status of the row was, a save that returns leaves its own record there, as a
-- DRAFT; if the identifier of each award was the uuid of its row, written as the database writes it.
pub other_spelling_resets :
    (db : Database) (py : Builtins) (caller : Caller) (store after : Store) (a : Fields)
    (now new_id s k : String) (body : Fields)
    → IsKeyed db store.definitions
    → record_id_of "awardId" new_id body ≡ ok s
    → db.uuid s ≡ some k
    → s ≢ k
    → save_award py db caller now new_id body store ≡ ok (a, after)
    → (bucket_get k after.definitions ≡ some a) × (status_of a ≡ text "DRAFT")
other_spelling_resets db py caller store after a now new_id s k body keyed named spelt other h =
    let p = save_award-parts db py caller store a after keyed now new_id body h in
    let same : p.record_id ≡ s = ok_same (sym p.named ∙ named) in
    let missing : item_of p.record_id store.definitions ≡ none = rw same (
      item_of-keyed db s store.definitions keyed
      ∙ other_spelling db s k store.definitions keyed spelt other) in
    let id_is : id_of a ≡ s =
      drafted_id db py caller store a after keyed now p.record_id p.parts
        (item_of p.record_id store.definitions) body p.drafted
      ∙ same in
    let row = save_definition-row db a k store p.saved p.wrote (ap db.uuid id_is ∙ spelt) in
    let status =
      drafted_status db py caller store a after keyed now p.record_id p.parts
        (item_of p.record_id store.definitions) body p.drafted in
    (
      ap (bucket_get k) (p.left ∙ row)
          ∙ bucket_get-bucket_set k k a store.definitions
          ∙ rw (eq_refl k) refl,
      rw missing at status,
    )
