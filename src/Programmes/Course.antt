-- ===== src/Programmes/Course.antt =====
-- The way of a draft to its publication by the content handlers of services/programmes.py.
use myota_platform.Programmes.Content.{
  with_entry, put_content, submit_content, ContentStore, authorize_admin, is_admin, append_item,
  review_content, publish_content,
}
use myota_platform.Base.{String, str_eq, ◌≡◌, false, some, true, eq_refl, refl, ◌∙◌, ℕ, ◌∷◌, []}
use myota_platform.Json.{
  Fields, get_value, text, array, set_field, field, end, object, merge, truthy, Json,
}
use myota_platform.Awards.Lifecycle.{bucket_get, Caller}
use myota_platform.Awards.Table.{bucket_get-bucket_set}
use myota_platform.Base.Raise.{ok}
use myota_platform.Awards.Moves.{get_value-set_field, get_value-merge, after_update}
use myota_platform.Programmes.Publication.{submit, review, publish, serve_content, handle_content}
use myota_platform.Builtins.{Builtins, iso_time}

with_entry-other :
    (k : String) (entry c : Fields)
    → str_eq "reviewHistory" k ≡ false
    → get_value k (with_entry entry c) ≡ get_value k c
unfolding with_entry
with_entry-other k entry c n =
    elim (get_value "reviewHistory" c)
      as (λ v.
        get_value k (elim v [
          | array vs ↦ set_field "reviewHistory" (array (append_item vs (object entry))) c
          | _ ↦ c
        ])
        ≡ get_value k c) [
          | array vs ↦
              rw
                (get_value-set_field k "reviewHistory" (array (append_item vs (object entry))) c, n)
                refl
          | _ ↦ refl
        ]

-- the content of a programme under an identifier, at a stage of its life
pub record Stage (slug id status : String) (store : ContentStore) : Type 0 where
  pub content : Fields
  pub found : bucket_get id store.contents ≡ some content
  pub owned_by : get_value "programmeSlug" content ≡ text slug
  pub stage : get_value "status" content ≡ text status

-- a content that a handler moves on is found
moved-Stage :
    (slug id old status event : String) (store : ContentStore) (s : Stage slug id old store)
    (entry change : Fields)
    → ((v : Json) → after_update "programmeSlug" v change ≡ v)
    → ((v : Json) → after_update "status" v change ≡ text status)
    → Stage slug id status (put_content event id (with_entry entry (merge s.content change)) store)
unfolding put_content
moved-Stage slug id old status event store s entry change same moved =
    let updated = merge s.content change in
    let content = with_entry entry updated in
    record {
      content = content;
      found = rw (bucket_get-bucket_set id id content store.contents, eq_refl id) refl;
      owned_by =
          with_entry-other "programmeSlug" entry updated refl
          ∙ get_value-merge "programmeSlug" s.content change
          ∙ same (get_value "programmeSlug" s.content)
          ∙ s.owned_by;
      stage =
          with_entry-other "status" entry updated refl
          ∙ get_value-merge "status" s.content change
          ∙ moved (get_value "status" s.content);
    }

submit-Stage :
    (caller : Caller) (now slug id : String) (store : ContentStore)
    → is_admin caller slug ≡ true
    → Stage slug id "DRAFT" store
    → (c : Fields) × (after : ContentStore) × (submit_content caller now slug id store
        ≡ ok (c, after))
      × Stage slug id "UNDER_REVIEW" after
unfolding submit_content authorize_admin
submit-Stage caller now slug id store admin s =
    let entry = field "action" (text "SUBMITTED") (field "occurredAt" (text now) end) in
    let change =
      field "status" (text "UNDER_REVIEW")
        (field "submittedAt" (text now) (field "updatedAt" (text now) end)) in
    let content = with_entry entry (merge s.content change) in
    (
      content,
      put_content "programme.content.submitted.v1" id content store,
      rw (admin, s.found, s.owned_by, s.stage, eq_refl slug) refl,
      moved-Stage slug id "DRAFT" "UNDER_REVIEW" "programme.content.submitted.v1" store s entry
          change (λ v. refl) (λ v. refl),
    )

review-Stage :
    (caller : Caller) (now slug id : String) (body : Fields) (store : ContentStore)
    → is_admin caller slug ≡ true
    → get_value "decision" body ≡ text "APPROVED"
    → truthy (get_value "reviewerId" body) ≡ true
    → Stage slug id "UNDER_REVIEW" store
    → (c : Fields) × (after : ContentStore) × (review_content caller now slug id body store
        ≡ ok (c, after))
      × Stage slug id "APPROVED" after
unfolding review_content authorize_admin
review-Stage caller now slug id body store admin decision reviewer s =
    let entry = field "action" (text "APPROVED") (
      field "reviewerId" (get_value "reviewerId" body)
        (field "note" (get_value "note" body) (field "occurredAt" (text now) end))) in
    let change =
      field "status" (text "APPROVED")
        (field "reviewedAt" (text now) (field "updatedAt" (text now) end)) in
    let content = with_entry entry (merge s.content change) in
    (
      content,
      put_content "programme.content.reviewed.v1" id content store,
      rw (admin, decision, reviewer, s.found, s.owned_by, s.stage, eq_refl slug) refl,
      moved-Stage slug id "UNDER_REVIEW" "APPROVED" "programme.content.reviewed.v1" store s entry
          change (λ v. refl) (λ v. refl),
    )

publish-Stage :
    (py : Builtins) (caller : Caller) (now slug id : String) (body : Fields) (store : ContentStore)
    (t : ℕ)
    → is_admin caller slug ≡ true
    → truthy (get_value "effectiveFrom" body) ≡ true
    → truthy (get_value "publisherId" body) ≡ true
    → py.instant (get_value "effectiveFrom" body) ≡ some t
    → Stage slug id "APPROVED" store
    → (c : Fields) × (after : ContentStore) × (publish_content py caller now slug id body store
        ≡ ok (c, after))
      × Stage slug id "PUBLISHED" after
unfolding publish_content authorize_admin
publish-Stage py caller now slug id body store t admin from publisher time s =
    let who = get_value "publisherId" body in
    let when_ = text (py.iso_of t) in
    let entry =
      field "action" (text "PUBLISHED") (
        field "publisherId" who
          (field "effectiveFrom" when_ (field "occurredAt" (text now) end))) in
    let change = field "status" (text "PUBLISHED") (
      field "effectiveFrom" when_ (
        field "publishedAt" (text now)
          (field "publisherId" who (field "updatedAt" (text now) end)))) in
    let content = with_entry entry (merge s.content change) in
    let read : iso_time py (get_value "effectiveFrom" body) ≡ some (py.iso_of t) =
      rw (iso_time, time) refl in
    (
      content,
      put_content "programme.content.published.v1" id content store,
      rw (admin, from, publisher, read, s.found, s.owned_by, s.stage, eq_refl slug) refl,
      moved-Stage slug id "APPROVED" "PUBLISHED" "programme.content.published.v1" store s entry
          change (λ v. refl) (λ v. refl),
    )

-- A draft goes out: an administrator of its programme who submits it, approves it (with a reviewer) and
-- publishes it (with a publisher and a time that can be read) leaves it, under its identifier and in its
-- programme, with the status PUBLISHED.
pub draft_goes_out :
    (py : Builtins) (caller : Caller) (t1 t2 t3 slug id : String) (approval release : Fields)
    (store : ContentStore) (c : Fields) (t : ℕ)
    → is_admin caller slug ≡ true
    → bucket_get id store.contents ≡ some c
    → get_value "programmeSlug" c ≡ text slug
    → get_value "status" c ≡ text "DRAFT"
    → get_value "decision" approval ≡ text "APPROVED"
    → truthy (get_value "reviewerId" approval) ≡ true
    → truthy (get_value "effectiveFrom" release) ≡ true
    → truthy (get_value "publisherId" release) ≡ true
    → py.instant (get_value "effectiveFrom" release) ≡ some t
    → Stage slug id "PUBLISHED" (
        serve_content py store (
          submit caller t1 slug id
          ∷ review caller t2 slug id approval
          ∷ publish caller t3 slug id release
          ∷ []))
unfolding serve_content handle_content
draft_goes_out py caller t1 t2 t3 slug id approval release store c t admin found own draft decision
      reviewer from publisher time =
    let start : Stage slug id "DRAFT" store = record {
      content = c;
      found = found;
      owned_by = own;
      stage = draft;
    } in
    let (c1, s1, e1, first) = submit-Stage caller t1 slug id store admin start in
    let (c2, s2, e2, second) =
      review-Stage caller t2 slug id approval s1 admin decision reviewer first in
    let (c3, s3, e3, third) =
      publish-Stage py caller t3 slug id release s2 t admin from publisher time second in
    rw (e1, e2, e3) third
