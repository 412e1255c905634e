-- ===== src/Common/Dispatch.antt =====
-- services/common.py: what JsonHandler._dispatch makes of the response of a route that returns what Store.once
use myota_platform.Base.{none, some, ◌∷◌, [], Option, String, List, if◌then◌else◌, str_eq}
use myota_platform.Base.Raise.{ok, err, Result}
use myota_platform.Json.{Json, object, get_or, number}
use myota_platform.Common.Once.{Once, once}
use myota_platform.Awards.Saving.{without_field}
use myota_platform.Base.Text.{is_empty}

-- returns. Store.once records the response object itself, so that the status popped from the response is
-- gone from the recorded one.

-- a request of such a route: its Idempotency-Key and its callback
abbrev pub Call : Type 0 → Type 0 → Type 0
Call E S = Option String × (S → Result E Json × S)

-- the status that is popped from a response
unfoldable pub popped_status : Json → Json
popped_status (object fs) = get_or "_status" (number 200) fs
popped_status _ = number 200

-- the response that is left
unfoldable pub popped_response : Json → Json
popped_response (object fs) = object (without_field "_status" fs)
popped_response v = v

-- the recorded responses, where the one under the key is popped
unfoldable pub popped : String → List (String × Json) → List (String × Json)
popped k [] = []
popped k ((j, r) ∷ rs) = if str_eq j k then (j, popped_response r) ∷ rs else (j, r) ∷ popped k rs

-- result.pop on the recorded response, which is the same object
unfoldable pub pop_recorded : {S : Type 0} → Option String → Once S Json → Once S Json
pop_recorded none store = store
pop_recorded (some key) store =
    if is_empty key then store else record store { idempotency = popped key store.idempotency }

module _ {E S : Type 0} where
  -- the status and the body of the answer, or the exception
  unfoldable pub answer :
      Option String → Result E Json × Once S Json → Result E (Json × Json) × Once S Json
  answer key (ok r, store) = (ok (popped_status r, popped_response r), pop_recorded key store)
  answer key (err e, store) = (err e, store)

  unfoldable pub dispatch : Call E S → Once S Json → Result E (Json × Json) × Once S Json
  dispatch (key, f) store = answer key (once key f store)

  -- the store after requests
  unfoldable pub dispatch_all : List (Call E S) → Once S Json → Once S Json
  dispatch_all [] store = store
  dispatch_all (c ∷ cs) store = dispatch_all cs (dispatch c store).1
