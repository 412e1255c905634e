-- ===== src/Tests/Common.antt =====
-- The theorems on pages, idempotency keys and tokens at concrete data.
use myota_platform.Base.{
  refl, none, some, ◌∷◌, [], ℕ, String, List, suc, Option, ◌≡◌, ◌+◌, zero, ap, if◌then◌else◌,
  str_eq, ◌&&◌,
}
use myota_platform.Base.Raise.{ok, err, Result}
use myota_platform.Common.Paging.{int_param, Query, ℤ, pos}
use myota_platform.Common.Pages.{collect, pages_cover}
use myota_platform.Common.Once.{Once, once}
use myota_platform.Common.Runs.{retry_repeats}
use myota_platform.Common.Token.{header_of, cut, verify_token, sign_token, has_type}
use myota_platform.Awards.Design.{ServiceError, value_error, permission_error}
use myota_platform.Common.Signed.{IsFaithful, lives, verify-sign}
use myota_platform.Tests.Platform.{sample_crypto, sample_claims, sample_int}
use myota_platform.Json.{has_key, get, get_or, number, Json, object, field, end}
use myota_platform.Common.Dispatch.{
  dispatch, dispatch_all, Call, answer, popped_status, popped_response,
}
use myota_platform.Awards.Saving.{without_field}

-- a number in tally marks, and int() of it
unfoldable tally : ℕ → String
tally zero = String.[]
tally (suc n) = String.◌∷◌ "x" (tally n)

-- the number of the marks
unfoldable marks : String → ℕ
marks String.[] = zero
marks (String.◌∷◌ c s) = suc (marks s)

marks-tally : (n : ℕ) → marks (tally n) ≡ n
unfolding tally marks
marks-tally zero = refl
marks-tally (suc n) = ap suc (marks-tally n)

abbrev int_of_tally : String → Option ℤ
int_of_tally s = some (pos (marks s))

abbrev page_query : ℕ → Query
page_query p name = if str_eq name "page" then some (tally p) else some "xx"

page_query_numbered : (p : ℕ) → int_param int_of_tally "page" 1 (page_query p) ≡ some (pos p)
unfolding int_param
page_query_numbered p = ap (λ n. some (pos n)) (marks-tally p)

page_query_sized : (p : ℕ) → int_param int_of_tally "pageSize" 50 (page_query p) ≡ some (pos 2)
unfolding int_param marks
page_query_sized p = refl

abbrev three : List ℕ
three = 10 ∷ 20 ∷ 30 ∷ []

pages_cover_example : collect int_of_tally three page_query (3 + 1) 1 ≡ some three
pages_cover_example =
    pages_cover int_of_tally three page_query (pos 2) page_query_numbered page_query_sized

-- callbacks that count and answer with 201, and one that raises
abbrev counts : ℕ → Result ServiceError Json × ℕ
counts n = (ok (object (field "_status" (number 201) (field "n" (number n) end))), n + 1)

abbrev refuses : ℕ → Result ServiceError Json × ℕ
refuses n = (err value_error, n)

abbrev fresh : Once ℕ Json
fresh = record { state = 7; idempotency = [] }

abbrev others : List (Call ServiceError ℕ)
others = (some "k2", counts) ∷ (none, counts) ∷ (some "k1", refuses) ∷ []

abbrev seventh : Json
seventh = object (field "n" (number 7) end)

counts-dispatch : (dispatch (some "k1", counts) fresh).0 ≡ ok (number 201, seventh)
unfolding dispatch answer once popped_status popped_response get_or without_field get
counts-dispatch = refl

retry_repeats_example :
    let later = dispatch_all others (dispatch (some "k1", counts) fresh).1 in
    dispatch (some "k1", refuses) later ≡ (ok (number 200, seventh), later)
retry_repeats_example =
    retry_repeats "k1" counts refuses fresh (number 201) seventh others refl counts-dispatch

sample_IsFaithful : IsFaithful sample_crypto sample_claims "refresh"
unfolding header_of cut has_key get
sample_IsFaithful = record {
  header_encoded = (refl, refl);
  claims_encoded = (refl, refl);
  digest_encoded = λ s. (refl, refl);
  header_loads = refl;
  claims_loads = refl;
}

verify-sign_example :
    verify_token sample_crypto 4999
      (sign_token sample_crypto sample_claims "refresh")
      (some "refresh")
    ≡ (if has_type (some "refresh") (header_of "refresh")
          && lives 4999 (sample_int (get_or "exp" (number 0) sample_claims))
        then ok sample_claims
        else err permission_error)
verify-sign_example =
    verify-sign sample_crypto sample_claims "refresh" sample_IsFaithful 4999 (some "refresh")
