-- ===== src/Jobs/History.antt =====
-- Any sequence of the transactions of services/activity_repository.py on its job tables, as the API,
-- the workers and the operators interleave them.
use myota_platform.Base.{ℕ, String, ◌&&◌, Option, List, [], ◌∷◌, str_eq, if◌then◌else◌}
use myota_platform.Base.Raise.{Result, ok, err}
use myota_platform.Base.Text.{strip}
use myota_platform.Json.{Json}
use myota_platform.Jobs.Tables.{Job, Db, JobError}
use myota_platform.Jobs.Leases.{
  is_work_kind, claimable, claim_row, held, heartbeat_row, retry_row, complete_row, fail_row,
  safe_error, claim_work_job, heartbeat_work_job, retry_work_job, complete_job, fail_work_job,
  record_work_dead_letter,
}
use myota_platform.Jobs.Commands.{
  enqueue_job, reconcile_queued_work_outbox, requeue_row, is_failed, audit_text_ok,
  redrive_failed_work_job,
}

pub data Call : Type 0 where
  enqueue :
      (now : ℕ) (correlation_id : Option String) (new_id kind : String) (payload : Json)
      (key : Option String)
      → Call
  reconcile : Call
  claim : (now : ℕ) (token job_id : String) (lease_seconds : ℕ) → Call
  heartbeat : (now : ℕ) (job_id token : String) (lease_seconds : ℕ) → Call
  retry : (now : ℕ) (job_id token error : String) (delay_seconds : ℕ) → Call
  complete : (now : ℕ) (job_id token : String) → Call
  fail :
      (now : ℕ) (new_id job_id token error subject work_type : String) (delivery_count : ℕ) → Call
  dead_letter :
      (new_id subject : String) (work_id work_type : Option String) (delivery_count : ℕ)
      (category : String)
      → Call
  redrive : (now : ℕ) (outbox_event_id audit_id job_id actor reason : String) → Call

-- A transaction that raises is rolled back.
abbrev pub settled : Db → Result JobError Db → Db
settled db (ok db') = db'
settled db (err e) = db

unfoldable pub step : Db → Call → Db
step db (enqueue now c new_id kind payload key) = (enqueue_job now c new_id kind payload key db).1
step db reconcile = (reconcile_queued_work_outbox db).1
step db (claim now token job_id s) = (claim_work_job now token job_id s db).1
step db (heartbeat now job_id token s) = (heartbeat_work_job now job_id token s db).1
step db (retry now job_id token error d) = settled db (retry_work_job now job_id token error d db)
step db (complete now job_id token) = settled db (complete_job now job_id token db)
step db (fail now new_id job_id token error subject work_type n) =
    settled db (fail_work_job now new_id job_id token error subject work_type n db)
step db (dead_letter new_id subject work_id work_type n category) =
    record_work_dead_letter new_id subject work_id work_type n category db
step db (redrive now oid aid job_id actor reason) =
    settled db (redrive_failed_work_job now oid aid job_id actor reason db)

unfoldable pub run : Db → List Call → Db
run db [] = db
run db (c ∷ cs) = run (step db c) cs

-- The life of one job, apart from the tables: what a call does to the job under the key `k`.
unfoldable pub job_after : String → Job → Call → Job
job_after k j (claim now token job_id s) =
    if str_eq job_id k && claimable now j then claim_row now token s j else j
job_after k j (heartbeat now job_id token s) =
    if str_eq job_id k && held token j then heartbeat_row now s j else j
job_after k j (retry now job_id token error d) =
    if str_eq job_id k && held token j then retry_row now d (safe_error error) j else j
job_after k j (complete now job_id token) =
    if str_eq job_id k && held token j then complete_row now j else j
job_after k j (fail now new_id job_id token error subject work_type n) =
    if str_eq job_id k && held token j then fail_row now (safe_error error) j else j
job_after k j (redrive now oid aid job_id actor reason) =
    if str_eq job_id k
      && (audit_text_ok 120 (strip actor)
          && audit_text_ok 500 (strip reason)
          && (is_failed j.status && is_work_kind j.kind))
    then requeue_row now j
    else j
job_after k j _ = j

unfoldable pub job_after_all : String → Job → List Call → Job
job_after_all k j [] = j
job_after_all k j (c ∷ cs) = job_after_all k (job_after k j c) cs
