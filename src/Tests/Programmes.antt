-- ===== src/Tests/Programmes.antt =====
-- The theorems on content at concrete stores and requests.
use myota_platform.Base.{String, List, Option, ◌∷◌, [], some, ◌≡◌, refl, none}
use myota_platform.Awards.Lifecycle.{Caller, bucket_get, bearer, bucket_set}
use myota_platform.Json.{Fields, field, Json, text, array, end, get_value, nil, merge, set_field}
use myota_platform.Programmes.Content.{
  ContentStore, is_admin, publish_content, review_content, submit_content, save_content,
}
use myota_platform.Programmes.Publication.{
  serve_content, ContentRequest, handle_content, save, kept_or_put, submit, review, publish,
}
use myota_platform.Tests.Awards.{sample_builtins}
use myota_platform.Programmes.Finality.{published_content_is_final, content_of_others_is_kept}
use myota_platform.Programmes.Course.{Stage, draft_goes_out}

abbrev content_in : String → Fields
content_in status = field "id" (text "c1") (
    field "programmeSlug" (text "pota")
      (field "status" (text status) (field "reviewHistory" (array nil) end)))

abbrev content_store : String → ContentStore
content_store status = record { contents = ("c1", content_in status) ∷ []; events = [] }

abbrev editor : Caller
editor = bearer (some ("programme:pota:programme_admin" ∷ []))

abbrev new_text : Fields
new_text =
    field "contentId" (text "c1")
      (field "key" (text "title") (field "locale" (text "en") (field "value" (text "Parks") end)))

abbrev approval : Fields
approval = field "decision" (text "APPROVED") (field "reviewerId" (text "u2") end)

abbrev release : Fields
release = field "effectiveFrom" (text "2026-01-01") (field "publisherId" (text "u3") end)

abbrev whole_life : List ContentRequest
whole_life =
    save editor "t1" "n" "pota" new_text
    ∷ submit editor "t2" "pota" "c1"
    ∷ review editor "t3" "pota" "c1" approval
    ∷ publish editor "t4" "pota" "c1" release
    ∷ []

abbrev status_after : Option Fields → Option Json
status_after none = none
status_after (some c) = some (get_value "status" c)

abbrev published_life : ContentStore
published_life = serve_content sample_builtins (content_store "DRAFT") whole_life

-- a draft that is submitted, approved and published is published
goes_out : status_after (bucket_get "c1" published_life.contents) ≡ some (text "PUBLISHED")
unfolding serve_content handle_content bucket_get publish_content is_admin get_value review_content
    submit_content save_content bucket_set merge set_field
goes_out = refl

published_content_is_final_example :
    bucket_get "c1"
      (serve_content sample_builtins
        (content_store "PUBLISHED")
        (save editor "t1" "n" "pota" new_text ∷ submit editor "t2" "pota" "c1" ∷ [])).contents
    ≡ some (content_in "PUBLISHED")
unfolding bucket_get get_value
published_content_is_final_example =
    published_content_is_final sample_builtins
      (save editor "t1" "n" "pota" new_text ∷ submit editor "t2" "pota" "c1" ∷ [])
      (content_store "PUBLISHED") "c1" (content_in "PUBLISHED") refl refl

content_of_others_is_kept_example :
    bucket_get "c1"
      (kept_or_put (content_store "DRAFT") (
        handle_content sample_builtins
          (submit (bearer (some ("award.admin" ∷ []))) "t" "pota" "c1")
          (content_store "DRAFT"))).contents
    ≡ some (content_in "DRAFT")
unfolding bucket_get is_admin
content_of_others_is_kept_example =
    content_of_others_is_kept sample_builtins
      (submit (bearer (some ("award.admin" ∷ []))) "t" "pota" "c1") (content_store "DRAFT") "c1"
      (content_in "DRAFT") refl refl

draft_goes_out_example : Stage "pota" "c1" "PUBLISHED" (
    serve_content sample_builtins (content_store "DRAFT") (
      submit editor "t2" "pota" "c1"
      ∷ review editor "t3" "pota" "c1" approval
      ∷ publish editor "t4" "pota" "c1" release
      ∷ []))
unfolding bucket_get is_admin get_value
draft_goes_out_example =
    draft_goes_out sample_builtins editor "t2" "t3" "t4" "pota" "c1" approval release
      (content_store "DRAFT") (content_in "DRAFT") 0 refl refl refl refl refl refl refl refl refl
