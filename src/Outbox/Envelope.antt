-- ===== src/Outbox/Envelope.antt =====
-- services/outbox_routing.py: event_envelope. `uuid v` is `str(UUID(str(v)))`, `none` where it raises;
-- `isoformat t` is the UTC time `t` in ISO form without its offset.
use myota_platform.Base.{ℕ, String, Bool, true, false, not, Option, none, some, List, [], member}
use myota_platform.Base.Raise.{Result, ok, err, ◌>>=◌, ◌>>◌, guard, or_raise}
use myota_platform.Base.Text.{concat, is_empty}
use myota_platform.Json.{Json, text, number, object, Fields, field, end, set_field}
use myota_platform.Jobs.Tables.{OutboxRow}
use myota_platform.Outbox.Registry.{FactRoute, LegacyRoute, TargetRoute, Catalog}
use myota_platform.Outbox.Routing.{
  ContractError, unregistered, payload_not_object, producer_required, producer_mismatch,
  aggregate_type_required, route, as_object,
}
use myota_platform.Outbox.Command.{
  bounded_correlation_id, with_correlation, aggregate_of, legacy_command, check_work_id,
  normalized_event_id,
}

-- The route of an event, as event_envelope looks it up: a legacy work event has the target route of
-- its work type, any other the route of its own type.
pub data Routed : Type 0 where
  legacy_work : LegacyRoute → Option TargetRoute → Routed
  work : TargetRoute → Routed
  plain_fact : FactRoute → Routed
  unknown : Routed

module _ (c : Catalog) where
  unfoldable pub routed : String → Routed
  routed event_type = elim (route event_type c.legacy_work_routes) [
    | some work_route ↦ legacy_work work_route (route work_route.work_type c.target_work_routes)
    | none ↦ elim (route event_type c.target_work_routes) [
      | some target_route ↦ work target_route
      | none ↦ elim (route event_type c.events) [ none ↦ unknown | some fact ↦ plain_fact fact ]
    ]
  ]

abbrev pub is_registered : Routed → Bool
is_registered unknown = false
is_registered _ = true

-- expected_producers
abbrev pub producers_of : Routed → List String
producers_of (legacy_work work_route target) = work_route.producers
producers_of (work target_route) = target_route.producers
producers_of (plain_fact fact) = fact.producers
producers_of unknown = []

module _ (isoformat : ℕ → String) where
  -- _utc_timestamp; a timestamptz column always has its zone
  unfoldable pub utc_timestamp : ℕ → String
  utc_timestamp t = concat (isoformat t) "Z"

  unfoldable pub fact_envelope : String → OutboxRow → Option String → Fields → Fields
  fact_envelope normalized_id row correlation_id payload = with_correlation correlation_id (
      field "eventId" (text normalized_id) (
        field "eventType" (text row.event_type) (
          field "occurredAt" (text (utc_timestamp row.occurred_at)) (
            field "producer" (text row.producer)
              (field "aggregate" (aggregate_of row) (field "payload" (object payload) end))))))

  unfoldable pub work_envelope :
      String → String → String → OutboxRow → Option String → Fields → Fields
  work_envelope work_id target_type normalized_id row correlation_id command =
      with_correlation correlation_id (
        field "envelopeVersion" (number 1) (
          field "workId" (text work_id) (
            field "workType" (text target_type) (
              field "createdAt" (text (utc_timestamp row.occurred_at)) (
                field "producer" (text row.producer) (
                  field "causationId" (text normalized_id) (
                    field "aggregate" (aggregate_of row)
                      (field "payload" (object command) end))))))))

module _ (c : Catalog) (uuid : Json → Option String) (isoformat : ℕ → String) where
  -- the envelope of each kind of event, its common checks passed
  unfoldable pub build :
      Routed → String → OutboxRow → Option String → Fields → Result ContractError Fields
  build (legacy_work work_route none) normalized_id row correlation_id payload =
      ok (fact_envelope isoformat normalized_id row correlation_id payload)
  build (legacy_work work_route (some target)) normalized_id row correlation_id payload = do
    command ← legacy_command uuid row work_route payload
    work_id ← check_work_id uuid work_route.work_id_field row.aggregate_id command
    ok (
        work_envelope isoformat work_id work_route.work_type normalized_id row correlation_id
          command)
  build (work target_route) normalized_id row correlation_id payload = do
    work_id ← check_work_id uuid "jobId" row.aggregate_id payload
    ok (work_envelope isoformat work_id row.event_type normalized_id row correlation_id payload)
  build (plain_fact fact) normalized_id row correlation_id payload = ok (
      set_field "envelopeVersion" (number 1)
        (fact_envelope isoformat normalized_id row correlation_id payload))
  build unknown normalized_id row correlation_id payload = err unregistered

  unfoldable pub event_envelope : OutboxRow → Result ContractError Fields
  event_envelope row = do
    correlation_id ← bounded_correlation_id row.correlation_id
    let kind = routed c row.event_type
    guard (is_registered kind) unregistered
    payload ← or_raise (as_object row.payload) payload_not_object
    normalized_id ← normalized_event_id uuid row
    guard (not (is_empty row.producer)) producer_required
    guard (member row.producer (producers_of kind)) producer_mismatch
    guard (not (is_empty row.aggregate_type)) aggregate_type_required
    build kind normalized_id row correlation_id payload
