-- ===== src/Outbox/Command.antt =====
-- services/outbox_routing.py, event_envelope: the correlation identifier, the bounded payload of a
-- work command and the checks on its identifiers. `uuid v` is `str(UUID(str(v)))`, `none` where it
-- raises.
use myota_platform.Base.{
  ℕ, String, Bool, true, false, ◌&&◌, ◌||◌, not, Option, none, some, List, [], ◌∷◌, str_eq,
  if◌then◌else◌, leb,
}
use Prim.Native.Char.{code}
use myota_platform.Base.Raise.{Result, ok, err, ◌>>=◌, ◌>>◌, guard, or_raise}
use myota_platform.Base.Text.{is_empty, text_length}
use myota_platform.Json.{
  Json, text, object, boolean, Fields, field, end, get_value, is_null, set_field,
}
use myota_platform.Jobs.Tables.{OutboxRow}
use myota_platform.Outbox.Registry.{LegacyRoute}
use myota_platform.Outbox.Routing.{
  ContractError, event_id_not_uuid, correlation_unbounded, projection_missing, field_missing,
  identifier_not_uuid, geometry_hash_malformed, only_missing_not_boolean, reason_out_of_bounds,
  entity_mismatch, work_id_not_uuid, work_id_not_canonical, work_id_mismatch, as_text, is_text,
}
use myota_platform.Outbox.Uuid.{matches_uuid_pattern, many, at_end}

-- every character between 0x21 and 0x7E
unfoldable pub is_printable : String → Bool
is_printable String.[] = true
is_printable (String.◌∷◌ c s) = leb 0x21 (code c) && leb (code c) 0x7e && is_printable s

-- _bounded_correlation_id, of a text column
unfoldable pub bounded_correlation_id : Option String → Result ContractError (Option String)
unfolding is_printable
bounded_correlation_id none = ok none
bounded_correlation_id (some s) =
    if leb 1 (text_length s) && leb (text_length s) 128 && is_printable s
    then ok (some s)
    else err correlation_unbounded

unfoldable pub is_lower_hex : ℕ → Bool
is_lower_hex c = leb b'0' c && leb c b'9' || leb b'a' c && leb c b'f'

-- if correlation_id: d["correlationId"] = correlation_id
unfoldable pub with_correlation : Option String → Fields → Fields
with_correlation none fs = fs
with_correlation (some s) fs = if is_empty s then fs else set_field "correlationId" (text s) fs

abbrev pub aggregate_of : OutboxRow → Json
aggregate_of row =
    object (field "type" (text row.aggregate_type) (field "id" (text row.aggregate_id) end))

-- the loop that fills command_payload from the registered fields
unfoldable pub project :
    String → String → Fields → List String → Fields → Result ContractError Fields
project work_id_field aggregate_id payload [] command = ok command
project work_id_field aggregate_id payload (f ∷ fs) command =
    let found = get_value f payload in
    let value =
      if is_null found && str_eq f work_id_field && not (str_eq work_id_field "requestId")
      then text aggregate_id
      else found in
    let rest = project work_id_field aggregate_id payload fs (set_field f value command) in
    if is_null value then err field_missing else rest

abbrev pub identifier_fields : List String
identifier_fields = "importRunId" ∷ "queueId" ∷ "jobId" ∷ "entityId" ∷ "requestId" ∷ []

abbrev pub is_boolean : Json → Bool
is_boolean (boolean b) = true
is_boolean _ = false

-- u == s, where UUID did not raise
abbrev pub is_same : Option String → String → Bool
is_same none s = false
is_same (some u) s = str_eq u s

-- isinstance(v, str) and p(v)
abbrev pub text_where : (String → Bool) → Json → Bool
text_where p (text s) = p s
text_where p _ = false

-- the checks on a location-enrichment command
unfoldable pub check_location : String → Fields → Result ContractError (Unit {0})
unfolding is_lower_hex
check_location aggregate_id command = do
  guard
      (text_where (λ s. at_end (many 64 is_lower_hex (some s))) (get_value "geometryHash" command))
      geometry_hash_malformed
  guard (is_boolean (get_value "onlyMissing" command)) only_missing_not_boolean
  guard
      (text_where (λ s. leb 1 (text_length s) && leb (text_length s) 80)
        (get_value "reason" command))
      reason_out_of_bounds
  guard (is_text (get_value "entityId" command) aggregate_id) entity_mismatch

abbrev pub is_nonempty_list {ℓ} : {A : Type ℓ} → List A → Bool
is_nonempty_list [] = false
is_nonempty_list (x ∷ xs) = true

module _ (uuid : Json → Option String) where
  -- the loop that normalises the identifiers
  unfoldable pub normalise : List String → Fields → Result ContractError Fields
  normalise [] command = ok command
  normalise (f ∷ fs) command = elim (is_null (get_value f command)) [
    | true ↦ normalise fs command
    | false ↦ elim (uuid (get_value f command)) [
      | none ↦ err identifier_not_uuid
      | some u ↦ normalise fs (set_field f (text u) command)
    ]
  ]

  -- the bounded payload of a legacy work event
  unfoldable pub legacy_command : OutboxRow → LegacyRoute → Fields → Result ContractError Fields
  unfolding project normalise check_location
  legacy_command row work_route payload = do
    guard (is_nonempty_list work_route.payload_fields && not (is_empty work_route.work_id_field))
        projection_missing
    projected ←
        project work_route.work_id_field row.aggregate_id payload work_route.payload_fields end
    command ← normalise identifier_fields projected
    if str_eq work_route.work_type "geodata.location-enrichment.v1"
        then check_location row.aggregate_id command
        else ok tt
    ok command

  -- the checks on the work identifier of a command
  unfoldable pub check_work_id : String → String → Fields → Result ContractError String
  check_work_id work_id_field aggregate_id command = do
    work_id ← or_raise (as_text (get_value work_id_field command)) work_id_not_uuid
    guard (matches_uuid_pattern work_id) work_id_not_uuid
    -- the pattern admits only texts that UUID reads
    guard (is_same (uuid (text work_id)) work_id) work_id_not_canonical
    guard (str_eq work_id_field "requestId" || str_eq work_id aggregate_id) work_id_mismatch
    ok work_id

  -- str(UUID(str(event_id))), and the pattern
  unfoldable pub normalized_event_id : OutboxRow → Result ContractError String
  normalized_event_id row = do
    normalized_id ← or_raise (uuid (text row.event_id)) event_id_not_uuid
    guard (matches_uuid_pattern normalized_id) event_id_not_uuid
    ok normalized_id
