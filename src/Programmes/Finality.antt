-- ===== src/Programmes/Finality.antt =====
-- What no request to the content handlers of services/programmes.py brings about.
use myota_platform.Programmes.Content.{patch_content, ContentStore, is_admin, belongs_to}
use myota_platform.Programmes.Publication.{
  handle_content, serve_content, caller_of, ContentRequest, Put, slug_of, save, save-Put,
  submit-Put, submit, review, publish, patch, kept_or_put, review-Put, publish-Put,
}
use myota_platform.Base.{
  String, List, ◌≡◌, some, true, ◌&&◌, Option-cases, ◌∷◌, inl, String-cases, false, arith, inr, [],
}
use myota_platform.Builtins.{Builtins}
use myota_platform.Awards.Lifecycle.{Caller, bucket_get}
use myota_platform.Json.{Fields, get_value, set_field, merge, field, text, end}
use myota_platform.Base.Raise.{ok, Result-cases}
use myota_platform.Outbox.Routing.{is_text}
use myota_platform.Awards.Saving.{without_field}
use myota_platform.Awards.Table.{bucket_get-bucket_set}

patch-Put :
    (py : Builtins) (caller : Caller) (now slug : String) (store : ContentStore) (c : Fields)
    (after : ContentStore) (new_id id : String) (changes : Fields)
    → patch_content py caller now new_id slug id changes store ≡ ok (c, after)
    → (is_admin caller slug ≡ true) × Put slug store after
unfolding patch_content
patch-Put py caller now slug store c after new_id id changes h =
    let body = without_field "status" changes in
    let status = get_value "status" changes in
    elim (Option-cases (bucket_get id store.contents)) [
      | inl e ↦ ground (
        arith,
        submit-Put caller now slug store c after id,
        review-Put caller now slug store c after id (set_field "decision" status body),
        publish-Put caller now slug store c after py id body,
      )
      | inr (content, e) ↦ ground (
        arith,
        submit-Put caller now slug store c after id,
        review-Put caller now slug store c after id (set_field "decision" status body),
        publish-Put caller now slug store c after py id body,
        save-Put caller now slug store c after new_id
            (merge (merge content body) (field "contentId" (text id) end)),
      )
    ]

handle-Put :
    (py : Builtins) (r : ContentRequest) (store : ContentStore) (c : Fields) (after : ContentStore)
    → handle_content py r store ≡ ok (c, after)
    → (is_admin (caller_of r) (slug_of r) ≡ true) × Put (slug_of r) store after
unfolding handle_content
handle-Put py (save caller now new_id slug body) store c after h =
    save-Put caller now slug store c after new_id body h
handle-Put py (submit caller now slug id) store c after h =
    submit-Put caller now slug store c after id h
handle-Put py (review caller now slug id body) store c after h =
    review-Put caller now slug store c after id body h
handle-Put py (publish caller now slug id body) store c after h =
    publish-Put caller now slug store c after py id body h
handle-Put py (patch caller now new_id slug id body) store c after h =
    patch-Put py caller now slug store c after new_id id body h

Put-published :
    (slug : String) (before after : ContentStore) (k : String) (c : Fields)
    → Put slug before after
    → bucket_get k before.contents ≡ some c
    → is_text (get_value "status" c) "PUBLISHED" ≡ true
    → bucket_get k after.contents ≡ some c
Put-published slug before after k c s found out =
    let here = bucket_get-bucket_set k s.id s.content before.contents in
    elim (String-cases s.id k) [
      | inr (e, n) ↦ rw (s.written, here, e) found
      | inl (e, p) ↦ let (still_open, own) = s.open_before c (rw p found) in ground arith
    ]

-- Whatever requests are made to the content handlers, by whomever and in any order: content that is
-- published stays under its identifier, exactly as it is.
pub published_content_is_final :
    (py : Builtins) (rs : List ContentRequest) (store : ContentStore) (k : String) (c : Fields)
    → bucket_get k store.contents ≡ some c
    → is_text (get_value "status" c) "PUBLISHED" ≡ true
    → bucket_get k (serve_content py store rs).contents ≡ some c
unfolding serve_content
published_content_is_final py [] store k c found out = found
published_content_is_final py (r ∷ rs) store k c found out =
    elim (Result-cases (handle_content py r store)) [
      | inr (x, e) ↦ rw (serve_content, e) (published_content_is_final py rs store k c found out)
      | inl ((d, after), e) ↦
          let (admin, put) = handle-Put py r store d after e in
          let kept = Put-published (slug_of r) store after k c put found out in
          rw (serve_content, e) (published_content_is_final py rs after k c kept out)
    ]

-- A request changes no content of another programme than the one that it is addressed to, and none at all
-- where its caller is no administrator of that programme.
pub content_of_others_is_kept :
    (py : Builtins) (r : ContentRequest) (store : ContentStore) (k : String) (c : Fields)
    → bucket_get k store.contents ≡ some c
    → (is_admin (caller_of r) (slug_of r) && belongs_to (slug_of r) c) ≡ false
    → bucket_get k (kept_or_put store (handle_content py r store)).contents ≡ some c
content_of_others_is_kept py r store k c found other =
    elim (Result-cases (handle_content py r store)) [
      | inr (x, e) ↦ rw e found
      | inl ((d, after), e) ↦
          let (admin, s) = handle-Put py r store d after e in
          let here = bucket_get-bucket_set k s.id s.content store.contents in
          rw e (elim (String-cases s.id k) [
            | inr (n, q) ↦ rw (s.written, here, n) found
            | inl (n, p) ↦ let (still_open, own) = s.open_before c (rw p found) in ground arith
          ])
    ]
