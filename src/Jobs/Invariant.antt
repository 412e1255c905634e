-- ===== src/Jobs/Invariant.antt =====
-- The lease invariant over the whole table activity_job of services/activity_repository.py.
use myota_platform.Base.{
  ℕ, String, ◌≡◌, Bool, true, Option, List, [], ◌∷◌, arith, All, All-append, update_row,
  update_row-All, inl, inr, ◌⊎◌, ◌++◌,
}
use myota_platform.Json.{Json}
use myota_platform.Jobs.Tables.{Job, Db, job_id_of}
use myota_platform.Jobs.Leases.{
  claimable, claim_row, held, heartbeat_row, retry_row, complete_row, fail_row, safe_error,
  claim_work_job, heartbeat_work_job, retry_work_job, complete_job, record_work_dead_letter,
}
use myota_platform.Jobs.Commands.{
  enqueue_job, reconcile_queued_work_outbox, redrive_failed_work_job, redrive_writes, requeue_row,
  is_failed, new_job, insert_job, insert_command,
}
use myota_platform.Jobs.History.{
  Call, enqueue, reconcile, claim, heartbeat, retry, complete, fail, dead_letter, redrive, settled,
  step, run,
}
use myota_platform.Jobs.Refinement.{jobs-leased_update, jobs-fail}
use myota_platform.Jobs.Leasing.{IsLeased}

abbrev pub AllLeased : Db → Type 0
AllLeased db = All IsLeased db.jobs

jobs-enqueue :
    (now : ℕ) (c : Option String) (new_id kind : String) (payload : Json) (key : Option String)
    (db : Db)
    → let after = (enqueue_job now c new_id kind payload key db).1 in
      (after.jobs ≡ db.jobs) ⊎ (after.jobs ≡ db.jobs ++ new_job now new_id kind payload key ∷ [])
unfolding enqueue_job insert_job insert_command
jobs-enqueue now c new_id kind payload key db = ground arith

jobs-redrive :
    (now : ℕ) (oid aid i actor reason : String) (db : Db)
    → let after = settled db (redrive_failed_work_job now oid aid i actor reason db) in
      (after.jobs ≡ db.jobs)
      ⊎ (after.jobs ≡ update_row job_id_of i (λ j. is_failed j.status) (requeue_row now) db.jobs)
unfolding redrive_failed_work_job redrive_writes
jobs-redrive now oid aid i actor reason db = ground arith

kept :
    (k : String) (g : Job → Bool) (f : Job → Job) (db : Db)
    → ((j : Job) → IsLeased j → g j ≡ true → IsLeased (f j))
    → AllLeased db
    → All IsLeased (update_row job_id_of k g f db.jobs)
kept k g f db keep h = update_row-All job_id_of IsLeased k g f db.jobs keep h

-- Each transaction keeps the invariant.
step-AllLeased : (db : Db) (c : Call) → AllLeased db → AllLeased (step db c)
unfolding step claim_work_job heartbeat_work_job retry_work_job complete_job
    reconcile_queued_work_outbox record_work_dead_letter
step-AllLeased db (enqueue now c new_id kind payload key) h =
    elim (jobs-enqueue now c new_id kind payload key db) [
      | inl e ↦ rw e h
      | inr e ↦ rw e (
          All-append IsLeased db.jobs (new_job now new_id kind payload key ∷ []) h
            ((unfold new_job in ground arith), tt))
    ]
step-AllLeased db reconcile h = h
step-AllLeased db (claim now token i s) h =
    kept i (claimable now) (claim_row now token s) db (λ j l g. unfold claim_row in ground arith) h
step-AllLeased db (heartbeat now i token s) h =
    kept i (held token) (heartbeat_row now s) db
      (λ j l g. unfold heartbeat_row held in ground (arith)) h
step-AllLeased db (retry now i token error d) h = rw jobs-leased_update (
    kept i (held token) (retry_row now d (safe_error error)) db
      (λ j l g. unfold retry_row in ground arith) h)
step-AllLeased db (complete now i token) h =
    rw jobs-leased_update
      (kept i (held token) (complete_row now) db (λ j l g. unfold complete_row in ground arith) h)
step-AllLeased db (fail now new_id i token error subject work_type n) h = rw jobs-fail (
    kept i (held token) (fail_row now (safe_error error)) db
      (λ j l g. unfold fail_row in ground arith) h)
step-AllLeased db (dead_letter new_id subject work_id work_type n category) h = h
step-AllLeased db (redrive now oid aid i actor reason) h =
    elim (jobs-redrive now oid aid i actor reason db) [
      | inl e ↦ rw e h
      | inr e ↦ rw e (
          kept i (λ j. is_failed j.status) (requeue_row now) db
            (λ j l g. unfold requeue_row in ground arith) h)
    ]

-- In every row of activity_job, whatever transactions run: if it was so at first, a running job has a
-- lease token and an expiry, and a job that is queued, succeeded or failed has neither.
pub run-AllLeased : (db : Db) (cs : List Call) → AllLeased db → AllLeased (run db cs)
unfolding run
run-AllLeased db [] h = h
run-AllLeased db (c ∷ cs) h = run-AllLeased (step db c) cs (step-AllLeased db c h)
