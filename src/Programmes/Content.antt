-- ===== src/Programmes/Content.antt =====
-- services/programmes.py: the life cycle of a programme's content, from save_content to patch_content. A
-- handler works on the dictionary in its bucket, which is never empty, and whose review history is a list
-- from its creation on. now() is one time per request; the status code of the answer is left out.
use myota_platform.Base.Raise.{Result, ok, ◌>>=◌, ◌>>◌, guard, or_raise}
use myota_platform.Awards.Lifecycle.{
  Bucket, Caller, bucket_set, bucket_get, require, bearer, status_in, internal, anonymous,
}
use myota_platform.Base.{
  String, List, Bool, Option, true, ◌++◌, if◌then◌else◌, false, ◌∷◌, some, [], none, ◌&&◌, ◌||◌,
  member, not,
}
use myota_platform.Json.{
  Items, Fields, Json, get_value, cons, array, field, nil, set_field, text, object, end, merge,
}
use myota_platform.Awards.Saving.{record_id_of, without_field, is_editable}
use myota_platform.Builtins.{Builtins, iso_time}
use myota_platform.Base.Text.{concat, is_empty}
use myota_platform.Awards.Design.{ServiceError, permission_error, value_error, key_error}
use myota_platform.Outbox.Routing.{is_text}

pub record ContentStore : Type 0 where
  pub contents : Bucket
  pub events : List (String × String)

-- f"programme:{slug}:programme_admin"
abbrev pub admin_scope : String → String
admin_scope slug = concat "programme:" (concat slug ":programme_admin")

-- whether _authorize_admin lets a caller pass
unfoldable pub is_admin : Caller → String → Bool
is_admin internal slug = true
is_admin anonymous slug = false
is_admin (bearer none) slug = false
is_admin (bearer (some scopes)) slug =
    member "*" scopes
    || (member "programme.admin" scopes
        || (not (is_empty slug) && member (admin_scope slug) scopes))

-- _authorize_admin
unfoldable pub authorize_admin : Caller → String → Result ServiceError (Unit {0})
authorize_admin caller slug = guard (is_admin caller slug) permission_error

abbrev pub belongs_to : String → Fields → Bool
belongs_to slug content = is_text (get_value "programmeSlug" content) slug

unfoldable pub append_item : Items → Json → Items
append_item nil v = cons v nil
append_item (cons w vs) v = cons w (append_item vs v)

-- content["reviewHistory"].append(entry)
unfoldable pub with_entry : Fields → Fields → Fields
unfolding append_item
with_entry entry content = elim (get_value "reviewHistory" content) [
  | array vs ↦ set_field "reviewHistory" (array (append_item vs (object entry))) content
  | _ ↦ content
]

-- the store after a change of the content under an identifier, with its event
unfoldable pub put_content : String → String → Fields → ContentStore → ContentStore
put_content event_type id content store = record {
  contents = bucket_set id content store.contents;
  events = store.events ++ (event_type, id) ∷ [];
}

-- the content that is edited, or a new draft
unfoldable pub draft_of : String → String → String → Option Fields → Fields
draft_of now id slug none = field "id" (text id) (
    field "programmeSlug" (text slug) (
      field "status" (text "DRAFT")
        (field "reviewHistory" (array nil) (field "createdAt" (text now) end))))
draft_of now id slug (some content) = content

abbrev pub owned : String → Option Fields → Bool
owned slug none = true
owned slug (some content) = belongs_to slug content

unfoldable pub save_content :
    Caller
    → String
    → String
    → String
    → Fields
    → ContentStore
    → Result ServiceError (Fields × ContentStore)
unfolding authorize_admin put_content draft_of record_id_of
save_content caller now new_id slug body store = do
  authorize_admin caller slug
  id ← record_id_of "contentId" new_id body
  let content = bucket_get id store.contents
  guard (owned slug content) value_error
  require body ("key" ∷ "locale" ∷ "value" ∷ [])
  guard (is_editable content) value_error
  let record_ = merge (draft_of now id slug content) (
      field "key" (get_value "key" body) (
        field "locale" (get_value "locale" body) (
          field "value" (get_value "value" body) (
            field "fallbackLocale" (get_value "fallbackLocale" body)
              (field "updatedAt" (text now) end)))))
  ok (record_, put_content "programme.content.saved.v1" id record_ store)

unfoldable pub submit_content :
    Caller → String → String → String → ContentStore → Result ServiceError (Fields × ContentStore)
unfolding authorize_admin put_content with_entry
submit_content caller now slug id store = do
  authorize_admin caller slug
  content ← or_raise (bucket_get id store.contents) key_error
  guard (belongs_to slug content && status_in ("DRAFT" ∷ "CHANGES_REQUESTED" ∷ []) content)
      value_error
  let content' =
      with_entry (field "action" (text "SUBMITTED") (field "occurredAt" (text now) end)) (
        merge content (
          field "status" (text "UNDER_REVIEW")
            (field "submittedAt" (text now) (field "updatedAt" (text now) end))))
  ok (content', put_content "programme.content.submitted.v1" id content' store)

unfoldable pub review_content :
    Caller
    → String
    → String
    → String
    → Fields
    → ContentStore
    → Result ServiceError (Fields × ContentStore)
unfolding authorize_admin put_content with_entry
review_content caller now slug id body store = do
  authorize_admin caller slug
  require body ("decision" ∷ "reviewerId" ∷ [])
  let decision = get_value "decision" body
  guard (is_text decision "APPROVED" || is_text decision "CHANGES_REQUESTED") value_error
  content ← or_raise (bucket_get id store.contents) key_error
  guard (belongs_to slug content && status_in ("UNDER_REVIEW" ∷ []) content) value_error
  let content' =
      with_entry
        (field "action" decision (
          field "reviewerId" (get_value "reviewerId" body)
            (field "note" (get_value "note" body) (field "occurredAt" (text now) end))))
        (merge content (
          field "status" decision
            (field "reviewedAt" (text now) (field "updatedAt" (text now) end))))
  ok (content', put_content "programme.content.reviewed.v1" id content' store)

module _ (py : Builtins) where
  unfoldable pub publish_content :
      Caller
      → String
      → String
      → String
      → Fields
      → ContentStore
      → Result ServiceError (Fields × ContentStore)
  unfolding authorize_admin put_content with_entry
  publish_content caller now slug id body store = do
    authorize_admin caller slug
    require body ("effectiveFrom" ∷ "publisherId" ∷ [])
    effective_from ← or_raise (iso_time py (get_value "effectiveFrom" body)) value_error
    content ← or_raise (bucket_get id store.contents) key_error
    guard (belongs_to slug content && status_in ("APPROVED" ∷ []) content) value_error
    let publisher = get_value "publisherId" body
    let content' =
        with_entry
          (field "action" (text "PUBLISHED") (
            field "publisherId" publisher
              (field "effectiveFrom" (text effective_from) (field "occurredAt" (text now) end))))
          (merge content (
            field "status" (text "PUBLISHED") (
              field "effectiveFrom" (text effective_from) (
                field "publishedAt" (text now)
                  (field "publisherId" publisher (field "updatedAt" (text now) end))))))
    ok (content', put_content "programme.content.published.v1" id content' store)

  unfoldable pub patch_content :
      Caller
      → String
      → String
      → String
      → String
      → Fields
      → ContentStore
      → Result ServiceError (Fields × ContentStore)
  unfolding submit_content review_content publish_content save_content without_field
  patch_content caller now new_id slug id patch store =
      let status = get_value "status" patch in
      let body = without_field "status" patch in
      if is_text status "UNDER_REVIEW"
      then submit_content caller now slug id store
      else if is_text status "APPROVED" || is_text status "CHANGES_REQUESTED"
      then review_content caller now slug id (set_field "decision" status body) store
      else if is_text status "PUBLISHED"
      then publish_content caller now slug id body store
      else (or_raise (bucket_get id store.contents) value_error >>= λ content.
          save_content caller now new_id slug
            (merge (merge content body) (field "contentId" (text id) end)) store)
