-- ===== src/Common/Once.antt =====
-- services/common.py: Store.once. The callback of a request changes the state and returns a response or
-- raises; the lock makes a call one step. What is recorded is the response object itself: Common.Dispatch
-- changes it there, when it pops the status from it.
use myota_platform.Base.{List, String, Option, none, some, ◌∷◌, if◌then◌else◌, str_eq, []}
use myota_platform.Base.Raise.{Result, ok, err}
use myota_platform.Base.Text.{is_empty}

pub record Once (S R : Type 0) : Type 0 where
  pub state : S
  pub idempotency : List (String × R)

module _ {R : Type 0} where
  unfoldable pub response_of : String → List (String × R) → Option R
  response_of k [] = none
  response_of k ((j, r) ∷ rs) = if str_eq j k then some r else response_of k rs

module _ {E S R : Type 0} where
  -- self.idempotency[key] = result
  unfoldable pub recorded : String → List (String × R) → Result E R × S → Result E R × Once S R
  recorded key seen (ok r, s) = (ok r, record { state = s; idempotency = (key, r) ∷ seen })
  recorded key seen (err e, s) = (err e, record { state = s; idempotency = seen })

  unfoldable pub unrecorded : List (String × R) → Result E R × S → Result E R × Once S R
  unrecorded seen (r, s) = (r, record { state = s; idempotency = seen })

  unfoldable pub once : Option String → (S → Result E R × S) → Once S R → Result E R × Once S R
  unfolding recorded unrecorded response_of
  once none callback store = unrecorded store.idempotency (callback store.state)
  once (some key) callback store =
      if is_empty key
      then unrecorded store.idempotency (callback store.state)
      else elim (response_of key store.idempotency) [
        | some r ↦ (ok r, store)
        | none ↦ recorded key store.idempotency (callback store.state)
      ]
