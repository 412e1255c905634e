-- ===== src/Programmes/Publication.antt =====
-- Who changes the content of a programme, and which content no one changes: the content handlers of
-- services/programmes.py.
use mathlib.Core.Path.{subst}
use myota_platform.Awards.Lifecycle.{Caller, bucket_set, bucket_get}
use myota_platform.Programmes.Content.{
  ContentStore, save_content, submit_content, review_content, publish_content, patch_content,
  authorize_admin, put_content, is_admin, belongs_to,
}
use myota_platform.Builtins.{Builtins}
use myota_platform.Base.{
  String, List, ◌∷◌, ◌≡◌, member, [], false, any, some, true, Option-cases, String-cases, inl, inr,
  arith, refl,
}
use myota_platform.Json.{Json, Fields, get_value, text}
use myota_platform.Base.Raise.{Result, ok, err, Result-cases}
use myota_platform.Awards.Design.{ServiceError}
use myota_platform.Outbox.Routing.{is_text}
use myota_platform.Awards.Saving.{record_id_of}

pub data ContentRequest : Type 0 where
  save : (caller : Caller) (now new_id slug : String) (body : Fields) → ContentRequest
  submit : (caller : Caller) (now slug id : String) → ContentRequest
  review : (caller : Caller) (now slug id : String) (body : Fields) → ContentRequest
  publish : (caller : Caller) (now slug id : String) (body : Fields) → ContentRequest
  patch : (caller : Caller) (now new_id slug id : String) (body : Fields) → ContentRequest

-- A handler that raises leaves the store as it was.
abbrev pub kept_or_put : ContentStore → Result ServiceError (Fields × ContentStore) → ContentStore
kept_or_put store (ok (c, after)) = after
kept_or_put store (err e) = store

module _ (py : Builtins) where
  unfoldable pub handle_content :
      ContentRequest → ContentStore → Result ServiceError (Fields × ContentStore)
  handle_content (save caller now new_id slug body) store =
      save_content caller now new_id slug body store
  handle_content (submit caller now slug id) store = submit_content caller now slug id store
  handle_content (review caller now slug id body) store =
      review_content caller now slug id body store
  handle_content (publish caller now slug id body) store =
      publish_content py caller now slug id body store
  handle_content (patch caller now new_id slug id body) store =
      patch_content py caller now new_id slug id body store

  unfoldable pub serve_content : ContentStore → List ContentRequest → ContentStore
  serve_content store [] = store
  serve_content store (r ∷ rs) = serve_content (kept_or_put store (handle_content r store)) rs

abbrev pub caller_of : ContentRequest → Caller
caller_of (save caller now new_id slug body) = caller
caller_of (submit caller now slug id) = caller
caller_of (review caller now slug id body) = caller
caller_of (publish caller now slug id body) = caller
caller_of (patch caller now new_id slug id body) = caller

abbrev pub slug_of : ContentRequest → String
slug_of (save caller now new_id slug body) = slug
slug_of (submit caller now slug id) = slug
slug_of (review caller now slug id body) = slug
slug_of (publish caller now slug id body) = slug
slug_of (patch caller now new_id slug id body) = slug

-- what a handler leaves: the contents, but for one that is new or open, and that is of the programme
pub record Put (slug : String) (before after : ContentStore) : Type 0 where
  pub id : String
  pub content : Fields
  pub written : after.contents ≡ bucket_set id content before.contents
  pub open_before :
      (old : Fields)
      → bucket_get id before.contents ≡ some old
      → (is_text (get_value "status" old) "PUBLISHED" ≡ false) × (belongs_to slug old ≡ true)

open_status :
    (v : Json) (names : List String)
    → member "PUBLISHED" names ≡ false
    → any (λ s. is_text v s) names ≡ true
    → is_text v "PUBLISHED" ≡ false
open_status (text s) names n h = elim (String-cases s "PUBLISHED") [
  | inr (e, m) ↦ e
  | inl (e, p) ↦
      let here : any (λ t. is_text (text "PUBLISHED") t) names ≡ true =
        subst (λ x. any (λ t. is_text (text x) t) names ≡ true) p h in
      ground arith
]
open_status _ names n h = refl

module _ (caller : Caller) (now slug : String) (store : ContentStore) (c : Fields)
    (after : ContentStore) where
  pub save-Put :
      (new_id : String) (body : Fields)
      → save_content caller now new_id slug body store ≡ ok (c, after)
      → (is_admin caller slug ≡ true) × Put slug store after
  unfolding save_content authorize_admin put_content
  save-Put new_id body h = elim (Result-cases (record_id_of "contentId" new_id body)) [
    | inr (x, e) ↦ ground arith
    | inl (id, e) ↦ (
      ground arith,
      record {
        id = id;
        content = c;
        written = ground arith;
        open_before = λ old at_old. (
          open_status (get_value "status" old) ("DRAFT" ∷ "CHANGES_REQUESTED" ∷ []) refl
              (ground arith),
          ground arith,
        );
      },
    )
  ]

  pub submit-Put :
      (id : String)
      → submit_content caller now slug id store ≡ ok (c, after)
      → (is_admin caller slug ≡ true) × Put slug store after
  unfolding submit_content authorize_admin put_content
  submit-Put id h = elim (Option-cases (bucket_get id store.contents)) [
    | inl e ↦ ground arith
    | inr (content, e) ↦ (
      ground arith,
      record {
        id = id;
        content = c;
        written = ground arith;
        open_before = λ old at_old. (
          open_status (get_value "status" old) ("DRAFT" ∷ "CHANGES_REQUESTED" ∷ []) refl
              (ground arith),
          ground arith,
        );
      },
    )
  ]

  pub review-Put :
      (id : String) (body : Fields)
      → review_content caller now slug id body store ≡ ok (c, after)
      → (is_admin caller slug ≡ true) × Put slug store after
  unfolding review_content authorize_admin put_content
  review-Put id body h = elim (Option-cases (bucket_get id store.contents)) [
    | inl e ↦ ground arith
    | inr (content, e) ↦ (
      ground arith,
      record {
        id = id;
        content = c;
        written = ground arith;
        open_before = λ old at_old. (
          open_status (get_value "status" old) ("UNDER_REVIEW" ∷ []) refl (ground arith),
          ground arith,
        );
      },
    )
  ]

  pub publish-Put :
      (py : Builtins) (id : String) (body : Fields)
      → publish_content py caller now slug id body store ≡ ok (c, after)
      → (is_admin caller slug ≡ true) × Put slug store after
  unfolding publish_content authorize_admin put_content
  publish-Put py id body h = elim (Option-cases (bucket_get id store.contents)) [
    | inl e ↦ ground arith
    | inr (content, e) ↦ (
      ground arith,
      record {
        id = id;
        content = c;
        written = ground arith;
        open_before = λ old at_old. (
          open_status (get_value "status" old) ("APPROVED" ∷ []) refl (ground arith),
          ground arith,
        );
      },
    )
  ]
