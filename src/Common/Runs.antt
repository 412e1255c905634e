-- ===== src/Common/Runs.antt =====
-- Requests with idempotency keys, one after the other: services/common.py's Store.once under _dispatch.
use myota_platform.Base.{
  refl, false, none, some, inl, inr, arith, ◌∷◌, [], String, ◌≡◌, List, Option, Bool-cases,
  String-cases, eq_refl, str_eq, ap, Option-cases, ◌∙◌, sym,
}
use myota_platform.Base.Raise.{ok, err, Result}
use myota_platform.Awards.Saving.{without_field}
use myota_platform.Common.Dispatch.{
  popped_response, popped_status, popped, answer, dispatch_all, dispatch, pop_recorded, Call,
}
use myota_platform.Common.Once.{recorded, once, response_of, Once}
use myota_platform.Json.{Fields, get, Json, get_or, field, object, number, end}
use myota_platform.Base.Text.{is_empty}

without_field_again :
    (k : String) (fs : Fields) → without_field k (without_field k fs) ≡ without_field k fs
unfolding without_field
without_field_again k end = refl
without_field_again k (field j v fs) = ground (arith, without_field_again k fs)

get-without_field : (k : String) (fs : Fields) → get k (without_field k fs) ≡ none
unfolding without_field get
get-without_field k end = refl
get-without_field k (field j v fs) = ground (arith, get-without_field k fs)

popped_response_again : (r : Json) → popped_response (popped_response r) ≡ popped_response r
unfolding popped_response
popped_response_again (object fs) = ap object (without_field_again "_status" fs)
popped_response_again _ = refl

popped_status_again : (r : Json) → popped_status (popped_response r) ≡ number 200
unfolding popped_status popped_response get_or
popped_status_again (object fs) = ground (arith, get-without_field "_status" fs)
popped_status_again _ = refl

-- the response under the key is recorded without its status
abbrev IsReplayable : String → Json → List (String × Json) → Type 0
IsReplayable k r seen = response_of k seen ≡ some (popped_response r)

popped-keeps :
    (k : String) (r : Json) (key : String) (seen : List (String × Json))
    → IsReplayable k r seen
    → IsReplayable k r (popped key seen)
unfolding popped response_of
popped-keeps k r key [] h = h
popped-keeps k r key ((j, q) ∷ rs) h = elim (Bool-cases (str_eq j key)) [
  | inr e ↦ elim (Bool-cases (str_eq j k)) [
    | inl t ↦ rw (e, t) (rw t at h)
    | inr t ↦ rw (e, t) (popped-keeps k r key rs (rw t at h))
  ]
  | inl e ↦ elim (Bool-cases (str_eq j k)) [
    | inr t ↦ rw (e, t) (rw t at h)
    | inl t ↦
        let same : q ≡ popped_response r = ground arith in
        rw (e, t) (ap some (ap popped_response same ∙ popped_response_again r))
  ]
]

popped_self :
    (k : String) (r : Json) (seen : List (String × Json))
    → response_of k seen ≡ some r
    → IsReplayable k r (popped k seen)
unfolding popped response_of
popped_self k r [] h = cc
popped_self k r ((j, q) ∷ rs) h = ground (arith, popped_self k r rs)

popped_again :
    (k : String) (r : Json) (seen : List (String × Json))
    → IsReplayable k r seen
    → popped k seen ≡ seen
unfolding popped response_of
popped_again k r [] h = refl
popped_again k r ((j, q) ∷ rs) h = elim (Bool-cases (str_eq j k)) [
  | inr e ↦ rw e (ap (λ xs. (j, q) ∷ xs) (popped_again k r rs (rw e at h)))
  | inl e ↦
      let same : q ≡ popped_response r = ground arith in
      let fixed : popped_response q ≡ q =
        ap popped_response same ∙ popped_response_again r ∙ sym same in
      rw e (ap (λ x. (j, x) ∷ rs) fixed)
]

module _ {E S : Type 0} where
  recorded-keeps :
      (k : String) (r : Json) (key : String) (seen : List (String × Json)) (res : Result E Json × S)
      → response_of key seen ≡ none
      → IsReplayable k r seen
      → IsReplayable k r (recorded key seen res).1.idempotency
  unfolding recorded response_of
  recorded-keeps k r key seen (err x, s) n h = h
  recorded-keeps k r key seen (ok x, s) n h = elim (String-cases key k) [
    | inl (e, p) ↦ cc
    | inr (e, p) ↦ rw e h
  ]

  recorded_self :
      (r : Json) (key : String) (seen : List (String × Json)) (res : Result E Json × S)
      → (recorded key seen res).0 ≡ ok r
      → response_of key (recorded key seen res).1.idempotency ≡ some r
  unfolding recorded response_of
  recorded_self r key seen (ok x, s) h = ground (arith, eq_refl key)
  recorded_self r key seen (err x, s) h = cc

  once-keeps :
      (k : String) (r : Json) (key : Option String) (f : S → Result E Json × S)
      (store : Once S Json)
      → IsReplayable k r store.idempotency
      → IsReplayable k r (once key f store).1.idempotency
  unfolding once
  once-keeps k r none f store h = h
  once-keeps k r (some key) f store h = elim (Bool-cases (is_empty key)) [
    | inl e ↦ rw e h
    | inr e ↦ elim (Option-cases (response_of key store.idempotency)) [
      | inr (q, m) ↦ rw (e, m) h
      | inl m ↦ rw (e, m) (recorded-keeps k r key store.idempotency (f store.state) m h)
    ]
  ]

  answer-keeps :
      (k : String) (r : Json) (key : Option String) (res : Result E Json × Once S Json)
      → IsReplayable k r res.1.idempotency
      → IsReplayable k r (answer key res).1.idempotency
  unfolding answer pop_recorded
  answer-keeps k r key (err e, store) h = h
  answer-keeps k r none (ok q, store) h = h
  answer-keeps k r (some key) (ok q, store) h = elim (Bool-cases (is_empty key)) [
    | inl e ↦ rw e h
    | inr e ↦ rw e (popped-keeps k r key store.idempotency h)
  ]

  dispatch_all-keeps :
      (k : String) (r : Json) (cs : List (Call E S)) (store : Once S Json)
      → IsReplayable k r store.idempotency
      → IsReplayable k r (dispatch_all cs store).idempotency
  unfolding dispatch_all dispatch
  dispatch_all-keeps k r [] store h = h
  dispatch_all-keeps k r ((key, f) ∷ cs) store h =
      dispatch_all-keeps k r cs (dispatch (key, f) store).1
        (answer-keeps k r key (once key f store) (once-keeps k r key f store h))

  replayed :
      (key : String) (r : Json) (f : S → Result E Json × S) (store : Once S Json)
      → is_empty key ≡ false
      → IsReplayable key r store.idempotency
      → dispatch (some key, f) store ≡ (ok (number 200, popped_response r), store)
  unfolding dispatch once answer pop_recorded
  replayed key r f store n h =
      rw (dispatch, once, n, h)
        (rw
          (
            answer,
            pop_recorded,
            n,
            popped_again key r store.idempotency h,
            popped_status_again r,
            popped_response_again r,
          )
          refl)

  once_recorded :
      (key : String) (r : Json) (f : S → Result E Json × S) (store : Once S Json)
      → is_empty key ≡ false
      → (once (some key) f store).0 ≡ ok r
      → response_of key (once (some key) f store).1.idempotency ≡ some r
  unfolding once
  once_recorded key r f store n h = elim (Option-cases (response_of key store.idempotency)) [
    | inr (q, m) ↦ rw (once, n, m) (ground arith)
    | inl m ↦ rw (n, m) (recorded_self r key store.idempotency (f store.state) (rw (n, m) at h))
  ]

  first_answer :
      (key : String) (res : Result E Json × Once S Json) (status body : Json)
      → is_empty key ≡ false
      → ((r : Json) → res.0 ≡ ok r → response_of key res.1.idempotency ≡ some r)
      → (answer (some key) res).0 ≡ ok (status, body)
      → (r : Json) × (body ≡ popped_response r)
        × IsReplayable key r (answer (some key) res).1.idempotency
  unfolding answer pop_recorded
  first_answer key (err e, store) status body n kept h = cc
  first_answer key (ok r, store) status body n kept h =
      (r, ground arith, rw n (popped_self key r store.idempotency (kept r refl)))

  -- A request with a key is carried out once: after it has been answered, whatever requests follow, the same
  -- key gives the same body again, whatever its request asks for, and changes nothing; its status is then 200,
  -- whatever it was at first. This is so where the route returns what Store.once returns, and the response
  -- shares no object with the state that later requests change.
  pub retry_repeats :
      (key : String) (f g : S → Result E Json × S) (store : Once S Json) (status body : Json)
      (cs : List (Call E S))
      → is_empty key ≡ false
      → (dispatch (some key, f) store).0 ≡ ok (status, body)
      → let later = dispatch_all cs (dispatch (some key, f) store).1 in
        dispatch (some key, g) later ≡ (ok (number 200, body), later)
  unfolding dispatch
  retry_repeats key f g store status body cs n h =
      let first = (dispatch (some key, f) store).1 in
      let (r, same, kept) =
        first_answer key (once (some key) f store) status body n
          (λ r e. once_recorded key r f store n e) h in
      replayed key r g (dispatch_all cs first) n (dispatch_all-keeps key r cs first kept)
      ∙ ap (λ b. (ok (number 200, b), dispatch_all cs first)) (sym same)
