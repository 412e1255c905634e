-- ===== src/Worker/Delivery.antt =====
-- The commands that services/activity_repository.py queues, as services/outbox_routing.py turns them
-- into messages, meet the contract of services/activity_worker.py.
use myota_platform.Base.{
  ℕ, String, ◌≡◌, refl, true, false, Option, some, arith, eq_refl, member, ◌⊎◌, inl, Bool-cases,
  inr,
}
use package.text.Mathlib.TextLemmas.{cons-append}
use myota_platform.Outbox.Routing.{subject_of as route_subject}
use myota_platform.Base.{none, some}
use myota_platform.Base.Raise.{ok}
use myota_platform.Base.Text.{concat, is_empty}
use myota_platform.Json.{
  Json, text, Fields, field, end, get_value, get, set_field, keys, object, null, number,
}
use myota_platform.Jobs.Tables.{OutboxRow}
use myota_platform.Jobs.Leases.{work_type_by_kind}
use myota_platform.Jobs.Commands.{command_row}
use myota_platform.Outbox.Registry.{catalog, TargetRoute}
use myota_platform.Outbox.Uuid.{matches_uuid_pattern}
use myota_platform.Outbox.Routing.{route, event_subject, event_stream}
use myota_platform.Outbox.Command.{
  bounded_correlation_id, check_work_id, normalized_event_id, with_correlation, aggregate_of,
}
use myota_platform.Outbox.Envelope.{
  event_envelope, work_envelope, build, routed, work, utc_timestamp,
}
use myota_platform.Worker.Contract.{
  Kind, qso_ingestion, name_of, work_subject, remove_prefix, rest_after, ends_with_z,
  accepted_work_id, meets_contract,
}

-- the work type of a kind, as the worker computes it
abbrev pub type_of : Kind → String
type_of kind = remove_prefix "myota.work." (work_subject kind)

is_empty-concat : (s : String) → is_empty (concat s "Z") ≡ false
is_empty-concat String.[] = refl
is_empty-concat (String.◌∷◌ c s) = rw (cons-append c s "Z")

ends_with_z-concat : (s : String) → ends_with_z (concat s "Z") ≡ true
unfolding ends_with_z
ends_with_z-concat String.[] = refl
ends_with_z-concat (String.◌∷◌ c s) =
    rw (cons-append c s "Z") (rw (is_empty-concat s) (ends_with_z-concat s))

-- the queue and the worker agree on the work type of a kind
type_of-kind : (kind : Kind) → work_type_by_kind (name_of kind) ≡ some (type_of kind)
unfolding work_type_by_kind name_of work_subject remove_prefix rest_after
type_of-kind qso_ingestion = refl
type_of-kind _ = refl

routed-kind :
    (kind : Kind)
    → (r : TargetRoute) × (routed catalog (type_of kind) ≡ work r)
      × (r.subject ≡ work_subject kind)
      × (r.stream ≡ "MYOTA_ACTIVITY_WORK")
      × (member "activity-service" r.producers ≡ true)
unfolding catalog routed route work_subject remove_prefix rest_after
routed-kind qso_ingestion = (_, refl, refl, refl, refl)
routed-kind _ = (_, refl, refl, refl, refl)

subject-kind : (kind : Kind) → route_subject catalog (type_of kind) null ≡ ok (work_subject kind)
unfolding catalog route_subject route work_subject remove_prefix rest_after
subject-kind qso_ingestion = refl
subject-kind _ = refl

stream-kind :
    (kind : Kind)
    → (r : TargetRoute) × (route (type_of kind) catalog.target_work_routes ≡ some r)
      × (r.stream ≡ "MYOTA_ACTIVITY_WORK")
unfolding catalog route work_subject remove_prefix rest_after
stream-kind qso_ingestion = (_, refl, refl)
stream-kind _ = (_, refl, refl)

-- A correlation identifier is written only if it is not empty.
with_correlation-cases :
    (c : Option String) (fs : Fields)
    → (with_correlation c fs ≡ fs)
      ⊎ ((s : String) × (with_correlation c fs ≡ set_field "correlationId" (text s) fs))
unfolding with_correlation
with_correlation-cases none fs = inl refl
with_correlation-cases (some s) fs = elim (Bool-cases (is_empty s)) [
  | inl e ↦ inl (rw e)
  | inr e ↦ inr (s, rw e)
]

module _ (uuid : Json → Option String) (isoformat : ℕ → String) (kind : Kind)
    (event_id job_id : String) (occurred available : ℕ) (correlation : Option String)
    (event_uuid : uuid (text event_id) ≡ some event_id)
    (event_pattern : matches_uuid_pattern event_id ≡ true)
    (job_uuid : uuid (text job_id) ≡ some job_id) (job_pattern : matches_uuid_pattern job_id ≡ true)
    (bounded : bounded_correlation_id correlation ≡ ok correlation) where
  abbrev row : OutboxRow
  row = command_row event_id (type_of kind) job_id occurred available correlation

  abbrev message_fields : Fields
  message_fields =
      work_envelope isoformat job_id (type_of kind) event_id row correlation
        (field "jobId" (text job_id) end)

  -- the message without a correlation identifier
  abbrev bare : Fields
  bare = field "envelopeVersion" (number 1) (
      field "workId" (text job_id) (
        field "workType" (text (type_of kind)) (
          field "createdAt" (text (utc_timestamp isoformat row.occurred_at)) (
            field "producer" (text row.producer) (
              field "causationId" (text event_id) (
                field "aggregate" (aggregate_of row)
                  (field "payload" (object (field "jobId" (text job_id) end)) end)))))))

  checked_id : check_work_id uuid "jobId" job_id (field "jobId" (text job_id) end) ≡ ok job_id
  unfolding check_work_id get_value
  checked_id = ground (arith, eq_refl job_id)

  checked_event : normalized_event_id uuid row ≡ ok event_id
  unfolding normalized_event_id command_row
  checked_event = ground arith

  command-event_envelope : event_envelope catalog uuid isoformat row ≡ ok message_fields
  unfolding event_envelope command_row build
  command-event_envelope =
      let (r, routes, subject, stream, producer) = routed-kind kind in
      ground (arith, checked_id, checked_event)

  message_subject : event_subject catalog message_fields ≡ ok (work_subject kind)
  unfolding event_subject work_envelope get get_value set_field
  message_subject = elim (with_correlation-cases correlation bare) [
    | inl e ↦ rw e (subject-kind kind)
    | inr (s, e) ↦ rw e (subject-kind kind)
  ]

  message_stream : event_stream catalog message_fields ≡ "MYOTA_ACTIVITY_WORK"
  unfolding event_stream work_envelope get get_value set_field
  message_stream = elim (with_correlation-cases correlation bare) [
    | inl e ↦ let (r, at, s) = stream-kind kind in rw (e, event_stream, at) s
    | inr (t, e) ↦ let (r, at, s) = stream-kind kind in rw (e, event_stream, at) s
  ]

  message_accepted :
      (n : ℕ)
      → accepted_work_id uuid kind (record {
        subject = work_subject kind;
        num_delivered = n;
        decoded = some (object message_fields);
      })
        ≡ some job_id
  unfolding accepted_work_id meets_contract command_row utc_timestamp work_envelope get get_value
      set_field keys
  message_accepted n = elim (with_correlation-cases correlation bare) [
    | inl e ↦ rw e (
        ground (
          arith,
          eq_refl job_id,
          eq_refl (type_of kind),
          eq_refl (work_subject kind),
          ends_with_z-concat (isoformat occurred),
        ))
    | inr (s, e) ↦ rw e (
        ground (
          arith,
          eq_refl job_id,
          eq_refl (type_of kind),
          eq_refl (work_subject kind),
          ends_with_z-concat (isoformat occurred),
        ))
  ]

-- Every work command is deliverable. For each kind of job, the outbox row that enqueue, reconcile and
-- redrive insert is turned by event_envelope, without an error, into an envelope that event_subject
-- and event_stream send to the subject and the stream of that kind's worker, and that worker accepts
-- the message as work for that job; provided the two identifiers are canonical UUIDs and the
-- correlation identifier is bounded.
pub command_is_delivered :
    (uuid : Json → Option String) (isoformat : ℕ → String) (kind : Kind) (event_id job_id : String)
    (occurred available : ℕ) (correlation : Option String) (deliveries : ℕ)
    → uuid (text event_id) ≡ some event_id
    → matches_uuid_pattern event_id ≡ true
    → uuid (text job_id) ≡ some job_id
    → matches_uuid_pattern job_id ≡ true
    → bounded_correlation_id correlation ≡ ok correlation
    → (work_type : String) × (envelope : Fields) × (work_type_by_kind (name_of kind)
        ≡ some work_type)
      × (event_envelope catalog uuid isoformat
            (command_row event_id work_type job_id occurred available correlation)
          ≡ ok envelope)
      × (event_subject catalog envelope ≡ ok (work_subject kind))
      × (event_stream catalog envelope ≡ "MYOTA_ACTIVITY_WORK")
      × (accepted_work_id uuid kind (record {
        subject = work_subject kind;
        num_delivered = deliveries;
        decoded = some (object envelope);
      })
          ≡ some job_id)
command_is_delivered uuid iso kind e j o a c n eu ep ju jp b = (
  type_of kind,
  message_fields uuid iso kind e j o a c eu ep ju jp b,
  type_of-kind kind,
  command-event_envelope uuid iso kind e j o a c eu ep ju jp b,
  message_subject uuid iso kind e j o a c eu ep ju jp b,
  message_stream uuid iso kind e j o a c eu ep ju jp b,
  message_accepted uuid iso kind e j o a c eu ep ju jp b n,
)
