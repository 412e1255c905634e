-- ===== src/Outbox/Routing.antt =====
-- services/outbox_routing.py: the subject and the stream of an event.
use myota_platform.Base.{
  String, Bool, false, Option, none, some, List, [], ◌∷◌, str_eq, if◌then◌else◌,
}
use myota_platform.Base.Raise.{Result, ok, err, ◌>>=◌, or_raise}
use myota_platform.Json.{Json, text, object, Fields, get, get_value, is_null}
use myota_platform.Outbox.Registry.{FactRoute, LegacyRoute, TargetRoute, Catalog}

-- OutboxContractError, by its message
pub data ContractError : Type 0 where
  type_required payload_not_object legacy_subject_unexpected legacy_target_missing : ContractError
  work_subject_overridden unregistered fact_subject_overridden : ContractError
  event_id_not_uuid producer_required producer_mismatch aggregate_type_required : ContractError
  correlation_unbounded projection_missing field_missing identifier_not_uuid : ContractError
  geometry_hash_malformed only_missing_not_boolean reason_out_of_bounds : ContractError
  entity_mismatch work_id_not_uuid work_id_not_canonical work_id_mismatch : ContractError
  too_large : ContractError

-- d.get(key) on a table of routes
unfoldable pub route {ℓ} : {R : Type ℓ} → String → List (String × R) → Option R
route t [] = none
route t ((s, r) ∷ rs) = if str_eq s t then some r else route t rs

-- event.get("workType", event.get("eventType"))
unfoldable pub event_type_of : Fields → Json
event_type_of event = elim (get "workType" event) [
  | none ↦ get_value "eventType" event
  | some v ↦ v
]

abbrev pub as_text : Json → Option String
as_text (text s) = some s
as_text _ = none

abbrev pub as_object : Json → Option Fields
as_object (object fs) = some fs
as_object _ = none

-- value == s, for a text s
abbrev pub is_text : Json → String → Bool
is_text (text t) s = str_eq t s
is_text _ s = false

module _ (c : Catalog) where
  -- the branch of a legacy work event
  unfoldable pub legacy_subject : LegacyRoute → Json → Result ContractError String
  legacy_subject work_route explicit =
      if is_text explicit work_route.subject
      then elim (route work_route.work_type c.target_work_routes) [
        | none ↦ err legacy_target_missing
        | some target ↦ ok target.subject
      ]
      else err legacy_subject_unexpected

  unfoldable pub target_subject : TargetRoute → Json → Result ContractError String
  target_subject target_route explicit =
      if is_null explicit then ok target_route.subject else err work_subject_overridden

  unfoldable pub fact_subject : Option FactRoute → Json → Result ContractError String
  fact_subject none explicit = err unregistered
  fact_subject (some fact) explicit =
      if is_null explicit then ok fact.subject else err fact_subject_overridden

  -- event_subject, past the checks of its types
  unfoldable pub subject_of : String → Json → Result ContractError String
  unfolding legacy_subject target_subject fact_subject
  subject_of event_type explicit = elim (route event_type c.legacy_work_routes) [
    | some work_route ↦ legacy_subject work_route explicit
    | none ↦ elim (route event_type c.target_work_routes) [
      | some target_route ↦ target_subject target_route explicit
      | none ↦ fact_subject (route event_type c.events) explicit
    ]
  ]

  unfoldable pub event_subject : Fields → Result ContractError String
  unfolding subject_of event_type_of
  event_subject event = do
    event_type ← or_raise (as_text (event_type_of event)) type_required
    payload ← or_raise (as_object (get_value "payload" event)) payload_not_object
    subject_of event_type (get_value "natsSubject" payload)

  -- event_stream; a type that is no text has no route
  unfoldable pub event_stream : Fields → String
  unfolding event_type_of
  event_stream event = elim (as_text (event_type_of event)) [
    | none ↦ "MYOTA_EVENTS"
    | some event_type ↦ elim (route event_type c.target_work_routes) [
      | none ↦ "MYOTA_EVENTS"
      | some r ↦ r.stream
    ]
  ]
