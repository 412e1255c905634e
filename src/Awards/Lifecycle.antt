-- ===== src/Awards/Lifecycle.antt =====
-- services/awards.py: the life cycle of an award definition, from save_award to retire_award, on the rows of
-- the database that services/activity_repository.py keeps it in. A handler is a function of the database, its
-- caller, the clock (as iso text), a fresh identifier, its arguments and the store.
use myota_platform.Base.Raise.{Result, ok, err, ◌>>=◌, ◌>>◌, guard, or_raise}
use myota_platform.Base.{
  Option, List, String, none, ◌∷◌, Bool, ◌++◌, if◌then◌else◌, all, any, [], str_eq, some, ◌&&◌,
  member, ◌||◌,
}
use myota_platform.Json.{Fields, Json, text, merge, get_value, object, truthy, field, get_or, end}
use myota_platform.Builtins.{Builtins, iso_time}
use myota_platform.Awards.Design.{
  ServiceError, permission_error, key_error, value_error, type_error, database_error,
}
use myota_platform.Outbox.Routing.{as_text, is_text, as_object}

-- p: a call from inside the service, or an HTTP request and the scopes that verify_token gives for its
-- bearer token, none where it raises
pub data Caller : Type 0 where
  internal anonymous : Caller
  bearer : (scopes : Option (List String)) → Caller

-- a dictionary of records under their identifiers, or a table of rows under the canonical text of their uuid
abbrev pub Bucket : Type 0
Bucket = List (String × Fields)

unfoldable pub bucket_get : String → Bucket → Option Fields
bucket_get k [] = none
bucket_get k ((j, v) ∷ xs) = if str_eq j k then some v else bucket_get k xs

unfoldable pub bucket_set : String → Fields → Bucket → Bucket
bucket_set k v [] = (k, v) ∷ []
bucket_set k v ((j, w) ∷ xs) = if str_eq j k then (k, v) ∷ xs else (j, w) ∷ bucket_set k v xs

pub record Store : Type 0 where
  -- the rows of activity_award_definition
  pub definitions : Bucket
  -- _bucket("assets")
  pub assets : Bucket
  -- the events of store.event: type and identifier
  pub events : List (String × String)

-- _authorize
unfoldable pub authorize : Caller → List String → Result ServiceError (Unit {0})
authorize internal scopes = ok tt
authorize anonymous scopes = err permission_error
authorize (bearer none) scopes = err permission_error
authorize (bearer (some granted)) scopes =
    guard (any (λ s. member s granted) ("*" ∷ scopes)) permission_error

-- require(body, *names)
abbrev pub require : Fields → List String → Result ServiceError (Unit {0})
require body names = guard (all (λ n. truthy (get_value n body)) names) value_error

-- award["status"], whose key every saved award has
abbrev pub status_of : Fields → Json
status_of award = get_value "status" award

abbrev pub status_in : List String → Fields → Bool
status_in names award = any (λ s. is_text (status_of award) s) names

abbrev pub id_text : Json → String
id_text v = elim (as_text v) [ none ↦ "" | some s ↦ s ]

-- record["id"]
abbrev pub id_of : Fields → String
id_of award = id_text (get_value "id" award)

-- The database: the canonical text of the uuid that it reads a text as, none where it refuses the text; and
-- whether it takes an award beside the rows that it has, by its constraints and its connection.
pub record Database : Type 0 where
  pub uuid : String → Option String
  pub takes : Fields → Bucket → Bool

-- {str(item["id"]): item for item in repository.list_collection("definitions")}.get(id)
unfoldable pub item_of : String → Bucket → Option Fields
item_of id [] = none
item_of id ((row, award) ∷ rows) = elim (item_of id rows) [
  | some later ↦ some later
  | none ↦ if str_eq (id_of award) id then some award else none
]

abbrev pub with_event : String → String → Store → Store
with_event event_type id store = record store { events = store.events ++ (event_type, id) ∷ [] }

-- d.update(e) and {**d, **e}
abbrev pub update : Fields → Fields → Fields
update = merge

-- award.get("printReadiness", {}).get("printReady")
unfoldable pub print_ready : Fields → Result ServiceError Bool
print_ready award = do
  readiness ← or_raise (as_object (get_or "printReadiness" (object end) award)) type_error
  ok (truthy (get_value "printReady" readiness))

module _ (db : Database) where
  -- get_collection_record("definitions", id): SELECT definition … WHERE id=%s
  unfoldable pub get_collection_record : String → Bucket → Result ServiceError Fields
  get_collection_record id rows = do
    row ← or_raise (db.uuid id) database_error
    or_raise (bucket_get row rows) key_error

  -- save_collection("definitions", record): INSERT … ON CONFLICT (id) DO UPDATE
  unfoldable pub save_collection : Fields → Bucket → Result ServiceError Bucket
  save_collection award rows = do
    row ← or_raise (db.uuid (id_of award)) database_error
    guard (db.takes award rows) database_error
    ok (bucket_set row award rows)

  -- _award
  unfoldable pub award_of : String → Store → Result ServiceError Fields
  unfolding get_collection_record
  award_of id store = get_collection_record id store.definitions

  -- _save("definitions", record)
  unfoldable pub save_definition : Fields → Store → Result ServiceError Store
  unfolding save_collection
  save_definition award store = do
    rows ← save_collection award store.definitions
    ok (record store { definitions = rows })

  unfoldable pub submit_award :
      Caller → String → String → Store → Result ServiceError (Fields × Store)
  unfolding authorize award_of save_definition
  submit_award caller now id store = do
    authorize caller ("awards.admin" ∷ [])
    award ← award_of id store
    guard (status_in ("DRAFT" ∷ "CHANGES_REQUESTED" ∷ []) award) value_error
    let award' =
        update award (field "status" (text "UNDER_REVIEW") (field "submittedAt" (text now) end))
    saved ← save_definition award' store
    ok (award', saved)

  unfoldable pub review_award :
      Caller → String → String → Fields → Store → Result ServiceError (Fields × Store)
  unfolding authorize award_of save_definition
  review_award caller now id body store = do
    authorize caller ("awards.admin" ∷ [])
    award ← award_of id store
    require body ("decision" ∷ "reviewerId" ∷ [])
    let decision = get_value "decision" body
    guard
        (status_in ("UNDER_REVIEW" ∷ []) award
          && (is_text decision "APPROVED" || is_text decision "CHANGES_REQUESTED"))
        value_error
    let review =
        field "reviewerId" (get_value "reviewerId" body)
          (field "note" (get_value "note" body) (field "reviewedAt" (text now) end))
    let award' = update award (field "status" decision (field "review" (object review) end))
    saved ← save_definition award' store
    ok (award', saved)

  unfoldable pub retire_award :
      Caller → String → Fields → Store → Result ServiceError (Fields × Store)
  unfolding authorize award_of save_definition
  retire_award caller id body store = do
    authorize caller ("awards.admin" ∷ [])
    award ← award_of id store
    require body ("retiredAt" ∷ "retiredBy" ∷ [])
    guard (status_in ("PUBLISHED" ∷ "APPROVED" ∷ []) award) value_error
    let award' = update award (
        field "status" (text "RETIRED") (
          field "retiredAt" (get_value "retiredAt" body)
            (field "retiredBy" (get_value "retiredBy" body) end)))
    saved ← save_definition award' store
    ok (award', saved)

  module _ (py : Builtins) where
    unfoldable pub publish_award :
        Caller → String → String → Fields → Store → Result ServiceError (Fields × Store)
    unfolding authorize award_of save_definition print_ready
    publish_award caller now id body store = do
      authorize caller ("awards.admin" ∷ [])
      award ← award_of id store
      require body ("effectiveFrom" ∷ "publisherId" ∷ [])
      guard (status_in ("APPROVED" ∷ []) award) value_error
      ready ← print_ready award
      guard ready value_error
      effective_from ← or_raise (iso_time py (get_value "effectiveFrom" body)) value_error
      let award' = update award (
          field "status" (text "PUBLISHED") (
            field "effectiveFrom" (text effective_from) (
              field "publisherId" (get_value "publisherId" body)
                (field "publishedAt" (text now) end))))
      saved ← save_definition award' store
      ok (award', with_event "awards.definition.published.v1" (id_of award') saved)
