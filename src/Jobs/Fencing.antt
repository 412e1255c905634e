-- ===== src/Jobs/Fencing.antt =====
-- A worker that has lost its lease can no longer write: services/activity_repository.py refuses its
-- token, whatever happens meanwhile.
use myota_platform.Base.{
  ℕ, String, ◌≡◌, ◌≢◌, false, some, List, [], ◌∷◌, eq_iff, arith, find_row, update_row_idle,
}
use myota_platform.Base.Raise.{Result, err}
use myota_platform.Jobs.Tables.{Job, Db, JobError, lease_lost, job_id_of}
use myota_platform.Jobs.Leases.{
  claim_row, held, heartbeat_row, retry_row, complete_row, fail_row, leased_update,
  heartbeat_work_job, retry_work_job, complete_job, fail_work_job, safe_error,
}
use myota_platform.Jobs.Commands.{requeue_row}
use myota_platform.Jobs.History.{
  Call, enqueue, reconcile, claim, heartbeat, retry, complete, fail, dead_letter, redrive, run,
  job_after, job_after_all,
}
use myota_platform.Jobs.Refinement.{run-job_after_all}

-- `new_id()` does not give the token again: no claim of the list issues it.
abbrev pub NotIssued : String → List Call → Type 0
NotIssued token [] = Unit
NotIssued token (claim now t i s ∷ cs) = (t ≢ token) × NotIssued token cs
NotIssued token (c ∷ cs) = NotIssued token cs

module _ (k token : String) where
  unheld_after :
      (j : Job) (c : Call) (cs : List Call)
      → held token j ≡ false
      → NotIssued token (c ∷ cs)
      → (held token (job_after k j c) ≡ false) × NotIssued token cs
  unfolding job_after held claim_row heartbeat_row retry_row complete_row fail_row requeue_row
  unheld_after j (claim now t i s) cs h n = ground (arith, eq_iff t token, n.0, n.1)
  unheld_after j (heartbeat now i t s) cs h n = (ground arith, n)
  unheld_after j (retry now i t e d) cs h n = (ground arith, n)
  unheld_after j (complete now i t) cs h n = (ground arith, n)
  unheld_after j (fail now new_id i t e s w m) cs h n = (ground arith, n)
  unheld_after j (redrive now oid aid i actor reason) cs h n = (ground arith, n)
  unheld_after j (enqueue now c new_id kind payload key) cs h n = (h, n)
  unheld_after j reconcile cs h n = (h, n)
  unheld_after j (dead_letter new_id subject work_id work_type m category) cs h n = (h, n)

  unheld_after_all :
      (cs : List Call) (j : Job)
      → held token j ≡ false
      → NotIssued token cs
      → held token (job_after_all k j cs) ≡ false
  unfolding job_after_all
  unheld_after_all [] j h n = h
  unheld_after_all (c ∷ cs) j h n =
      let next = unheld_after j c cs h n in unheld_after_all cs (job_after k j c) next.0 next.1

-- What a worker with `token` on the job `k` can write.
pub data Write : Type 0 where
  completion : (now : ℕ) → Write
  a_retry : (now : ℕ) (error : String) (delay_seconds : ℕ) → Write
  failure : (now : ℕ) (new_id error subject work_type : String) (delivery_count : ℕ) → Write

abbrev pub attempt : String → String → Write → Db → Result JobError Db
attempt k token (completion now) db = complete_job now k token db
attempt k token (a_retry now error d) db = retry_work_job now k token error d db
attempt k token (failure now new_id error subject work_type n) db =
    fail_work_job now new_id k token error subject work_type n db

refused :
    (k token : String) (f : Job → Job) (db : Db) (j : Job)
    → find_row job_id_of k db.jobs ≡ some j
    → held token j ≡ false
    → leased_update k token f db ≡ err lease_lost
unfolding leased_update
refused k token f db j at_key h = ground arith

attempt_refused :
    (k token : String) (w : Write) (db : Db) (j : Job)
    → find_row job_id_of k db.jobs ≡ some j
    → held token j ≡ false
    → attempt k token w db ≡ err lease_lost
unfolding complete_job retry_work_job fail_work_job
attempt_refused k token (completion now) db j at_key h = refused k token _ db j at_key h
attempt_refused k token (a_retry now error d) db j at_key h = refused k token _ db j at_key h
attempt_refused k token (failure now new_id error subject work_type n) db j at_key h =
    rw (refused k token (fail_row now (safe_error error)) db j at_key h)

heartbeat_refused :
    (k token : String) (now s : ℕ) (db : Db) (j : Job)
    → find_row job_id_of k db.jobs ≡ some j
    → held token j ≡ false
    → heartbeat_work_job now k token s db ≡ (false, db)
unfolding heartbeat_work_job
heartbeat_refused k token now s db j at_key h =
    ground (arith, update_row_idle job_id_of k (held token) (heartbeat_row now s) db.jobs)

-- Once a job is not held under a token (its lease was taken over, or the job was requeued or ended),
-- and no later claim issues that token, every completion, retry or failure with it raises, and a
-- heartbeat with it reports false and changes nothing, after any transactions.
pub lost_lease_is_fenced :
    (k token : String) (cs : List Call) (db : Db) (j : Job)
    → find_row job_id_of k db.jobs ≡ some j
    → held token j ≡ false
    → NotIssued token cs
    → ((w : Write) → attempt k token w (run db cs) ≡ err lease_lost)
      × ((now s : ℕ) → heartbeat_work_job now k token s (run db cs) ≡ (false, run db cs))
lost_lease_is_fenced k token cs db j at_key h n =
    let at_end = run-job_after_all k cs db j at_key in
    let lost = unheld_after_all k token cs j h n in
    (
      λ w. attempt_refused k token w (run db cs) (job_after_all k j cs) at_end lost,
      λ now s. heartbeat_refused k token now s (run db cs) (job_after_all k j cs) at_end lost,
    )
