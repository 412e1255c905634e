-- ===== src/Tests/Worker.antt =====
-- The theorems on the worker at a concrete message.
use myota_platform.Base.{String, ◌≡◌, some, ◌∷◌, [], inr, none, arith, text_ne, refl, find_row}
use myota_platform.Worker.Completion.{HasSucceeded, claimed_is_completed, IsUndisturbed}
use myota_platform.Json.{Fields, object, get_value, keys}
use myota_platform.Tests.Data.{
  job_id, sample_uuid, sample_message, first_attempt, one_beat, fine_finish, sample_time, db_of,
  queued_job, event_id,
}
use myota_platform.Worker.Contract.{
  accepted_work_id, name_of, qso_ingestion, pdf_render, meets_contract, rest_after, ends_with_z,
  work_subject,
}
use myota_platform.Jobs.Leases.{work_type_by_kind, claimable}
use myota_platform.Worker.Handle.{handle_message, Disposition, acked}
use myota_platform.Outbox.Envelope.{event_envelope}
use myota_platform.Worker.Acknowledgement.{HasEnded, acked-HasEnded}
use myota_platform.Outbox.Registry.{catalog}
use myota_platform.Jobs.Commands.{command_row, new_job}
use myota_platform.Base.Raise.{ok}
use myota_platform.Worker.Delivery.{command_is_delivered}
use myota_platform.Outbox.Uuid.{matches_uuid_pattern}
use myota_platform.Jobs.History.{run}
use myota_platform.Outbox.Routing.{event_subject, event_stream}
use myota_platform.Jobs.Tables.{Db}
use myota_platform.Outbox.Command.{bounded_correlation_id}

command_is_delivered_example :
    (work_type : String) × (envelope : Fields) × (work_type_by_kind (name_of pdf_render)
      ≡ some work_type)
    × (event_envelope catalog sample_uuid sample_time
          (command_row event_id work_type job_id 100 100 none)
        ≡ ok envelope)
    × (event_subject catalog envelope ≡ ok (work_subject pdf_render))
    × (event_stream catalog envelope ≡ "MYOTA_ACTIVITY_WORK")
    × (accepted_work_id sample_uuid pdf_render (record {
      subject = work_subject pdf_render;
      num_delivered = 2;
      decoded = some (object envelope);
    })
        ≡ some job_id)
unfolding matches_uuid_pattern bounded_correlation_id
command_is_delivered_example =
    command_is_delivered sample_uuid sample_time pdf_render event_id job_id 100 100 none 2 refl refl
      refl refl refl

claimed_is_completed_example : HasSucceeded job_id (
    handle_message sample_uuid qso_ingestion sample_message "l0"
      (first_attempt ∷ [])
      (one_beat ∷ [])
      fine_finish
      (db_of queued_job))
unfolding accepted_work_id get_value meets_contract rest_after work_subject keys ends_with_z
    matches_uuid_pattern find_row run new_job claimable work_type_by_kind IsUndisturbed
claimed_is_completed_example =
    claimed_is_completed sample_uuid qso_ingestion sample_message "l0" first_attempt []
      (one_beat ∷ []) fine_finish (db_of queued_job) job_id queued_job refl refl refl refl
      (((inr (omega arith), tt)), refl, ((inr (text_ne "token-b" "token-a" refl), tt), refl, refl))

-- the run of the worker on the sample message
abbrev sample_run : Disposition × Db
sample_run =
    handle_message sample_uuid qso_ingestion sample_message "l0" (first_attempt ∷ [])
      (one_beat ∷ []) fine_finish (db_of queued_job)

acked-sample_run : sample_run ≡ (acked, sample_run.1)
unfolding accepted_work_id get_value meets_contract rest_after work_subject keys ends_with_z
    matches_uuid_pattern find_row run new_job claimable work_type_by_kind IsUndisturbed
acked-sample_run = λ i. (
  (claimed_is_completed sample_uuid qso_ingestion sample_message "l0" first_attempt []
        (one_beat ∷ []) fine_finish (db_of queued_job) job_id queued_job refl refl refl refl
        (
          ((inr (omega arith), tt)),
          refl,
          ((inr (text_ne "token-b" "token-a" refl), tt), refl, refl),
        )).0
      i,
  sample_run.1,
)

acked-HasEnded_example :
    (work_id : String) × (accepted_work_id sample_uuid qso_ingestion sample_message ≡ some work_id)
    × HasEnded work_id sample_run.1
acked-HasEnded_example =
    acked-HasEnded sample_uuid qso_ingestion sample_message "l0" (first_attempt ∷ [])
      (one_beat ∷ []) fine_finish (db_of queued_job) sample_run.1 acked-sample_run
