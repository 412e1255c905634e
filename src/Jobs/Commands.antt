-- ===== src/Jobs/Commands.antt =====
-- services/activity_repository.py: the transactions that queue a job with its outbox command.
use myota_platform.Base.{
  ℕ, ◌+◌, ltb, String, Bool, true, false, ◌&&◌, ◌||◌, not, Option, none, some, List, [], ◌∷◌, ◌++◌,
  if◌then◌else◌, find, find_row, update_row, update_where, insert_row, ◌==◌,
}
use Prim.Native.String.{compare}
use package.text.Mathlib.Text.{is_lt}
use myota_platform.Base.Sort.{sort}
use myota_platform.Base.Raise.{Result, ok, ◌>>=◌, ◌>>◌, guard, or_raise}
use myota_platform.Base.Text.{strip, is_empty, text_length}
use myota_platform.Json.{Json, text, object, end, field}
use myota_platform.Jobs.Tables.{
  JobStatus, queued, failed, Job, OutboxRow, WorkDeadLetter, Db, JobError, job_missing,
  bad_audit_text, not_redrivable, kind_unregistered, job_id_of, event_id_of,
}
use myota_platform.Jobs.Leases.{work_type_by_kind, is_work_kind, is_queued, holds_token}

-- {"jobId": job_id}
abbrev pub command_payload : String → Json
command_payload job_id = object (field "jobId" (text job_id) end)

-- the outbox_event row of a work command
unfoldable pub command_row : String → String → String → ℕ → ℕ → Option String → OutboxRow
command_row event_id work_type job_id occurred_at available_at correlation_id = record {
  event_id = event_id;
  event_type = work_type;
  producer = "activity-service";
  aggregate_type = "activity_job";
  aggregate_id = job_id;
  payload = command_payload job_id;
  occurred_at = occurred_at;
  available_at = available_at;
  attempts = 0;
  published_at = none;
  last_error = none;
  correlation_id = correlation_id;
}

unfoldable pub new_job : ℕ → String → String → Json → Option String → Job
new_job now job_id kind payload idempotency_key = record {
  id = job_id;
  kind = kind;
  payload = payload;
  status = queued;
  attempts = 0;
  idempotency_key = idempotency_key;
  available_at = now;
  started_at = none;
  completed_at = none;
  last_error = none;
  created_at = now;
  lease_expires_at = none;
  lease_token = none;
}

-- the row that ON CONFLICT (idempotency_key) meets; NULL keys never conflict
unfoldable pub conflicting : Option String → List Job → Option Job
conflicting none jobs = none
conflicting (some key) jobs = find (λ j. holds_token j.idempotency_key key) jobs

-- INSERT INTO activity_job … ON CONFLICT (idempotency_key) DO UPDATE SET id=activity_job.id
-- RETURNING id, for an identifier that no row has
unfoldable pub insert_job : ℕ → String → String → Json → Option String → Db → String × Db
unfolding new_job conflicting
insert_job now job_id kind payload idempotency_key db = elim (conflicting idempotency_key db.jobs) [
  | none ↦
      (job_id, record db { jobs = db.jobs ++ new_job now job_id kind payload idempotency_key ∷ [] })
  | some j ↦ (j.id, db)
]

-- the command of _job, ON CONFLICT (event_id) DO NOTHING
unfoldable pub insert_command : ℕ → Option String → String → Option String → Db → Db
unfolding command_row
insert_command now correlation_id job_id none db = db
insert_command now correlation_id job_id (some work_type) db = record db {
  outbox =
      insert_row event_id_of (command_row job_id work_type job_id now now correlation_id) db.outbox;
}

-- _job, under enqueue_job
unfoldable pub enqueue_job :
    ℕ → Option String → String → String → Json → Option String → Db → String × Db
unfolding insert_job insert_command
enqueue_job now correlation_id new_id kind payload idempotency_key db =
    let (actual_id, db') = insert_job now new_id kind payload idempotency_key db in
    (actual_id, insert_command now correlation_id actual_id (work_type_by_kind kind) db')

-- the rows that reconcile_queued_work_outbox selects: queued, of a registered kind
unfoldable pub needs_command : Job → Bool
needs_command j = is_queued j.status && is_work_kind j.kind

-- the INSERT … ON CONFLICT DO NOTHING RETURNING of one row, and whether it inserted
unfoldable pub reconcile_one : Job → List OutboxRow → List OutboxRow × ℕ
unfolding command_row
reconcile_one j outbox = elim (work_type_by_kind j.kind) [
  | none ↦ (outbox, 0)
  | some work_type ↦ elim (find_row event_id_of j.id outbox) [
    | some o ↦ (outbox, 0)
    | none ↦ (outbox ++ command_row j.id work_type j.id j.created_at j.available_at none ∷ [], 1)
  ]
]

-- a round of the loop, with the WHERE clause of the rows that it runs over
unfoldable pub reconcile_round : Job → List OutboxRow → List OutboxRow × ℕ
reconcile_round j outbox = if needs_command j then reconcile_one j outbox else (outbox, 0)

unfoldable pub reconcile_loop : List Job → List OutboxRow → List OutboxRow × ℕ
reconcile_loop [] outbox = (outbox, 0)
reconcile_loop (j ∷ jobs) outbox =
    let (outbox', here) = reconcile_round j outbox in
    let (outbox'', later) = reconcile_loop jobs outbox' in (outbox'', here + later)

-- ORDER BY available_at, id
unfoldable pub by_availability : Job → Job → Bool
by_availability a b =
    ltb a.available_at b.available_at
    || (a.available_at == b.available_at && is_lt (compare a.id b.id))

unfoldable pub reconcile_queued_work_outbox : Db → ℕ × Db
reconcile_queued_work_outbox db =
    let (outbox, repaired) = reconcile_loop (sort by_availability db.jobs) db.outbox in
    (repaired, record db { outbox = outbox })

unfoldable pub requeue_row : ℕ → Job → Job
requeue_row now j = record j {
  status = queued;
  available_at = now;
  started_at = none;
  completed_at = none;
  lease_expires_at = none;
  lease_token = none;
  last_error = none;
}

abbrev pub is_failed : JobStatus → Bool
is_failed failed = true
is_failed _ = false

-- resolved_at IS NULL AND work_id = %s
unfoldable pub unresolved_of : String → WorkDeadLetter → Bool
unresolved_of job_id d =
    holds_token d.work_id job_id && elim d.resolved_at [ none ↦ true | some _ ↦ false ]

unfoldable pub resolve_at : ℕ → WorkDeadLetter → WorkDeadLetter
resolve_at now d = record d { resolved_at = some now }

unfoldable pub audit_text_ok : ℕ → String → Bool
audit_text_ok limit t = not (is_empty t) && not (ltb limit (text_length t))

-- the writes of redrive_failed_work_job, its guards passed
unfoldable pub redrive_writes : ℕ → String → String → String → String → String → String → Db → Db
unfolding command_row requeue_row unresolved_of resolve_at
redrive_writes now outbox_event_id audit_id job_id work_type actor reason db = record db {
  jobs = update_row job_id_of job_id (λ j. is_failed j.status) (requeue_row now) db.jobs;
  outbox = db.outbox ++ command_row outbox_event_id work_type job_id now now none ∷ [];
  audits =
      db.audits
      ++ record {
        id = audit_id;
        job_id = job_id;
        outbox_event_id = outbox_event_id;
        actor = actor;
        reason = reason;
      }
        ∷ [];
  dead_letters = update_where (unresolved_of job_id) (resolve_at now) db.dead_letters;
}

unfoldable pub redrive_failed_work_job :
    ℕ → String → String → String → String → String → Db → Result JobError Db
redrive_failed_work_job now outbox_event_id audit_id job_id actor reason db = do
  guard (audit_text_ok 120 (strip actor) && audit_text_ok 500 (strip reason)) bad_audit_text
  j ← or_raise (find_row job_id_of job_id db.jobs) job_missing
  guard (is_failed j.status || is_queued j.status) not_redrivable
  work_type ← or_raise (work_type_by_kind j.kind) kind_unregistered
  ok (redrive_writes now outbox_event_id audit_id job_id work_type (strip actor) (strip reason) db)
