-- ===== src/Tests/Data.antt =====
-- Concrete rows, messages and parameters that the tests share.
use myota_platform.Base.{String, ℕ, List, Option, ◌∷◌, if◌then◌else◌, [], some, none, true, false}
use myota_platform.Json.{Json, text, object, field, end, number}
use myota_platform.Jobs.Tables.{Job, Db, OutboxRow}
use myota_platform.Jobs.Commands.{new_job, command_row}
use myota_platform.Jobs.Leases.{claim_row, complete_row, fail_row}
use myota_platform.Jobs.History.{Call, claim, complete, redrive}
use myota_platform.Outbox.Uuid.{matches_uuid_pattern}
use myota_platform.Outbox.Relay.{RelayDb}
use myota_platform.Outbox.Publish.{Codec, Limits, ack_lost, not_stored}
use myota_platform.Outbox.NoLoss.{Happening, claimed, relayed, redriven}
use myota_platform.Worker.Contract.{Message}
use myota_platform.Worker.Handle.{Attempt, Beat, Finish}

abbrev pub job_id : String
job_id = "0f8fad5b-d9cb-469f-a165-70867728950e"

abbrev pub event_id : String
event_id = "7c9e6679-7425-40de-944b-e07fc1f90ae7"

-- `str(UUID(str(v)))` on texts that have the canonical form
abbrev pub sample_uuid : Json → Option String
sample_uuid (text s) = if matches_uuid_pattern s then some s else none
sample_uuid _ = none

abbrev pub sample_time : ℕ → String
sample_time t = "2026-01-02T03:04:05.000006"

abbrev pub queued_job : Job
queued_job =
    new_job 100 job_id "QSO_INGESTION" (object (field "qsoId" (text "q1") end)) (some "key")

abbrev pub leased_job : Job
leased_job = claim_row 200 "token-a" 120 queued_job

abbrev pub done_job : Job
done_job = complete_row 300 leased_job

abbrev pub failed_job : Job
failed_job = fail_row 300 "RuntimeError" leased_job

abbrev pub db_of : Job → Db
db_of j = record { jobs = j ∷ []; outbox = []; dead_letters = []; audits = [] }

-- what other clients do to the job
abbrev pub others : List Call
others =
    claim 400 "token-b" job_id 120
    ∷ complete 410 job_id "token-b"
    ∷ redrive 420 event_id "audit-1" job_id "operator" "broken upstream"
    ∷ []

abbrev pub command_of : String → OutboxRow
command_of k = command_row k "activity.qso-ingestion.v1" job_id 100 100 (some "request-1")

abbrev pub relay_db : RelayDb
relay_db = record { events = command_of event_id ∷ []; dead_letters = []; audits = [] }

abbrev pub sample_codec : Codec
sample_codec = record {
  uuid = sample_uuid;
  isoformat = sample_time;
  size = λ e. 400;
  message = λ e. "contract";
}

abbrev pub sample_limits : Limits
sample_limits = record { max_attempts = 12; max_message_bytes = 1048576 }

-- a claim, a publish whose acknowledgement is lost, a second try that the broker refuses, and a redrive
abbrev pub troubles : List Happening
troubles =
    claimed 200 (λ k. false)
    ∷ relayed (record { now = 210; factor = 1000; reply = ack_lost "timeout"; writable = true })
        (command_of event_id)
    ∷ relayed (record { now = 220; factor = 1000; reply = not_stored "no stream"; writable = true })
        (record (command_of event_id) { attempts = 12 })
    ∷ redriven 230 event_id "operator" "broker is back"
    ∷ []

-- the body of the command message of the job
abbrev pub message_body : Json
message_body = object (
    field "envelopeVersion" (number 1) (
      field "workId" (text job_id) (
        field "workType" (text "activity.qso-ingestion.v1") (
          field "createdAt" (text "2026-01-02T03:04:05.000006Z") (
            field "producer" (text "activity-service") (
              field "causationId" (text event_id) (
                field "aggregate"
                  (object (field "type" (text "activity_job") (field "id" (text job_id) end)))
                  (field "payload" (object (field "jobId" (text job_id) end)) end))))))))

abbrev pub sample_message : Message
sample_message = record {
  subject = "myota.work.activity.qso-ingestion.v1";
  num_delivered = 1;
  decoded = some message_body;
}

abbrev pub first_attempt : Attempt
first_attempt = record {
  before = [];
  now = 200;
  token = "token-a";
  letter_id = "l1";
  answers = true;
}

abbrev pub one_beat : Beat
one_beat = record { before = claim 300 "token-b" job_id 120 ∷ []; now = 30000000; answers = true }

abbrev pub fine_finish : Finish
fine_finish = record {
  handler_error = none;
  before = complete 400 job_id "token-b" ∷ [];
  now = 31000000;
  letter_id = "l2";
  answers = true;
  before_settle = [];
  settle_now = 0;
  settle_answers = true;
}
