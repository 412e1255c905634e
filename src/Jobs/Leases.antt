-- ===== src/Jobs/Leases.antt =====
-- services/activity_repository.py: the transactions of a worker on one job row. A transaction is a
-- function of the clock (`now()`, in microseconds), of the identifiers that `new_id()` gave it, of its
-- arguments and of the tables; it returns its result and the tables.
use myota_platform.Base.{
  ℕ, ◌+◌, ◌*◌, max, String, Bool, true, false, ◌&&◌, ◌||◌, Option, none, some, [], ◌∷◌, ◌++◌,
  str_eq, ltb, leb, if◌then◌else◌, find_row, update_row, returned,
}
use myota_platform.Base.Raise.{Result, ok, err, ◌>>=◌}
use myota_platform.Base.Text.{is_empty, first}
use myota_platform.Json.{Json}
use myota_platform.Jobs.Tables.{
  JobStatus, queued, running, succeeded, failed, Job, Db, JobError, lease_lost, job_id_of,
}

-- WORK_TYPE_BY_KIND.get(kind)
unfoldable pub work_type_by_kind : String → Option String
work_type_by_kind kind =
    if str_eq kind "QSO_INGESTION"
    then some "activity.qso-ingestion.v1"
    else if str_eq kind "ADIF_IMPORT"
    then some "activity.adif-import.v1"
    else if str_eq kind "AWARD_RECALCULATE"
    then some "activity.award-recalculate.v1"
    else if str_eq kind "AWARD_EVALUATION"
    then some "activity.award-evaluation.v1"
    else if str_eq kind "PDF_RENDER"
    then some "activity.pdf-render.v1"
    else if str_eq kind "STATISTICS_REBUILD"
    then some "activity.statistics-rebuild.v1"
    else none

abbrev pub is_some {ℓ} : {A : Type ℓ} → Option A → Bool
is_some none = false
is_some (some a) = true

-- kind = ANY(list(WORK_TYPE_BY_KIND))
abbrev pub is_work_kind : String → Bool
is_work_kind kind = is_some (work_type_by_kind kind)

-- make_interval(secs => n)
abbrev pub seconds : ℕ → ℕ
seconds n = n * 1000000

abbrev pub is_queued : JobStatus → Bool
is_queued queued = true
is_queued _ = false

abbrev pub is_running : JobStatus → Bool
is_running running = true
is_running _ = false

-- lease_expires_at < now(), which is not true of NULL
abbrev pub has_expired : Option ℕ → ℕ → Bool
has_expired none now = false
has_expired (some t) now = ltb t now

-- lease_token = %s, which is not true of NULL
abbrev pub holds_token : Option String → String → Bool
holds_token none token = false
holds_token (some t) token = str_eq t token

abbrev pub coalesce {ℓ} : {A : Type ℓ} → Option A → A → A
coalesce none d = d
coalesce (some a) d = a

pub record Claimed : Type 0 where
  pub id : String
  pub kind : String
  pub payload : Json
  pub attempts : ℕ
  pub lease_token : String

-- the WHERE clause of claim_work_job, beside the key
unfoldable pub claimable : ℕ → Job → Bool
claimable now j =
    is_work_kind j.kind
    && (leb j.available_at now
        && (is_queued j.status || (is_running j.status && has_expired j.lease_expires_at now)))

unfoldable pub claim_row : ℕ → String → ℕ → Job → Job
claim_row now token lease_seconds j = record j {
  status = running;
  attempts = j.attempts + 1;
  started_at = some (coalesce j.started_at now);
  lease_expires_at = some (now + seconds lease_seconds);
  lease_token = some token;
}

abbrev pub claimed_of : String → Option Job → Option Claimed
claimed_of token none = none
claimed_of token (some j) = some (record {
  id = j.id;
  kind = j.kind;
  payload = j.payload;
  attempts = j.attempts;
  lease_token = token;
})

unfoldable pub claim_work_job : ℕ → String → String → ℕ → Db → Option Claimed × Db
claim_work_job now token job_id lease_seconds db =
    let g = claimable now in
    let f = claim_row now token lease_seconds in
    (
      claimed_of token (returned g f (find_row job_id_of job_id db.jobs)),
      record db { jobs = update_row job_id_of job_id g f db.jobs },
    )

-- status='RUNNING' AND lease_token=%s
unfoldable pub held : String → Job → Bool
held token j = is_running j.status && holds_token j.lease_token token

unfoldable pub heartbeat_row : ℕ → ℕ → Job → Job
heartbeat_row now lease_seconds j = record j {
  lease_expires_at = some (now + seconds lease_seconds);
}

unfoldable pub heartbeat_work_job : ℕ → String → String → ℕ → Db → Bool × Db
heartbeat_work_job now job_id token lease_seconds db =
    let f = heartbeat_row now lease_seconds in
    (
      is_some (returned (held token) f (find_row job_id_of job_id db.jobs)),
      record db { jobs = update_row job_id_of job_id (held token) f db.jobs },
    )

unfoldable pub retry_row : ℕ → ℕ → String → Job → Job
retry_row now delay_seconds error j = record j {
  status = queued;
  available_at = now + seconds delay_seconds;
  lease_expires_at = none;
  lease_token = none;
  last_error = some error;
}

unfoldable pub complete_row : ℕ → Job → Job
complete_row now j = record j {
  status = succeeded;
  completed_at = some now;
  lease_expires_at = none;
  lease_token = none;
  last_error = none;
}

unfoldable pub fail_row : ℕ → String → Job → Job
fail_row now error j = record j {
  status = failed;
  completed_at = some now;
  lease_expires_at = none;
  lease_token = none;
  last_error = some error;
}

-- an UPDATE guarded by the lease, and RuntimeError when it returns no row
unfoldable pub leased_update : String → String → (Job → Job) → Db → Result JobError Db
leased_update job_id token f db =
    elim (returned (held token) f (find_row job_id_of job_id db.jobs)) [
      | none ↦ err lease_lost
      | some _ ↦ ok (record db { jobs = update_row job_id_of job_id (held token) f db.jobs })
    ]

-- type(error).__name__[:80], and the default for an empty name
abbrev pub safe_error : String → String
safe_error name = let cut = first 80 name in if is_empty cut then "worker error" else cut

unfoldable pub retry_work_job : ℕ → String → String → String → ℕ → Db → Result JobError Db
retry_work_job now job_id token error delay_seconds db =
    leased_update job_id token (retry_row now delay_seconds (safe_error error)) db

unfoldable pub complete_job : ℕ → String → String → Db → Result JobError Db
complete_job now job_id token db = leased_update job_id token (complete_row now) db

unfoldable pub record_dead_letter :
    String → Option String → Option String → String → ℕ → String → Db → Db
record_dead_letter new_id work_id work_type subject delivery_count category db = record db {
  dead_letters =
      db.dead_letters
      ++ record {
        id = new_id;
        work_id = work_id;
        work_type = work_type;
        subject = first 255 subject;
        delivery_count = max 1 delivery_count;
        error_category = category;
        resolved_at = none;
      }
        ∷ [];
}

unfoldable pub record_work_dead_letter :
    String → String → Option String → Option String → ℕ → String → Db → Db
unfolding record_dead_letter
record_work_dead_letter new_id subject work_id work_type delivery_count category db =
    record_dead_letter new_id work_id work_type subject delivery_count (first 80 category) db

unfoldable pub fail_work_job :
    ℕ → String → String → String → String → String → String → ℕ → Db → Result JobError Db
unfolding record_dead_letter
fail_work_job now new_id job_id token error subject work_type delivery_count db = do
  failed_db ← leased_update job_id token (fail_row now (safe_error error)) db
  ok (
      record_dead_letter new_id (some job_id) (some work_type) subject delivery_count
        (safe_error error) failed_db)
