-- ===== src/Jobs/Tables.antt =====
-- services/activity_repository.py: the tables activity_job, outbox_event, activity_work_dead_letter
-- and activity_work_redrive_audit (db/migrations/activity/001_activity_baseline.sql).
use myota_platform.Base.{ℕ, String, Option, List}
use myota_platform.Json.{Json}

pub data JobStatus : Type 0 where
  queued running succeeded failed : JobStatus

-- a row of activity_job
pub record Job : Type 0 where
  pub id : String
  pub kind : String
  pub payload : Json
  pub status : JobStatus
  pub attempts : ℕ
  pub idempotency_key : Option String
  pub available_at : ℕ
  pub started_at : Option ℕ
  pub completed_at : Option ℕ
  pub last_error : Option String
  pub created_at : ℕ
  pub lease_expires_at : Option ℕ
  pub lease_token : Option String

-- a row of outbox_event
pub record OutboxRow : Type 0 where
  pub event_id : String
  pub event_type : String
  pub producer : String
  pub aggregate_type : String
  pub aggregate_id : String
  pub payload : Json
  pub occurred_at : ℕ
  pub available_at : ℕ
  pub attempts : ℕ
  pub published_at : Option ℕ
  pub last_error : Option String
  pub correlation_id : Option String

-- a row of activity_work_dead_letter
pub record WorkDeadLetter : Type 0 where
  pub id : String
  pub work_id : Option String
  pub work_type : Option String
  pub subject : String
  pub delivery_count : ℕ
  pub error_category : String
  pub resolved_at : Option ℕ

-- a row of activity_work_redrive_audit
pub record RedriveAudit : Type 0 where
  pub id : String
  pub job_id : String
  pub outbox_event_id : String
  pub actor : String
  pub reason : String

pub record Db : Type 0 where
  pub jobs : List Job
  pub outbox : List OutboxRow
  pub dead_letters : List WorkDeadLetter
  pub audits : List RedriveAudit

pub data JobError : Type 0 where
  job_missing : JobError
  lease_lost : JobError
  bad_audit_text : JobError
  not_redrivable : JobError
  kind_unregistered : JobError
  id_taken : JobError

abbrev pub job_id_of : Job → String
job_id_of j = j.id

abbrev pub event_id_of : OutboxRow → String
event_id_of o = o.event_id
