-- ===== src/Jobs/Refinement.antt =====
-- The tables refine the life of each job: on a row, a transaction of services/activity_repository.py
-- does what `job_after` says, whatever the other rows are.
use myota_platform.Base.{
  ℕ, String, ◌≡◌, refl, ◌∙◌, Bool, ◌&&◌, Option, some, List, [], ◌∷◌, str_eq, arith, if◌then◌else◌,
  find_row, update_row, find_row_after, find_row-append, update_row_idle, Option-cases,
  String-cases, inl, inr,
}
use myota_platform.Json.{Json}
use myota_platform.Jobs.Tables.{Job, Db, job_id_of}
use myota_platform.Jobs.Leases.{
  claimable, claim_row, held, heartbeat_row, retry_row, complete_row, fail_row, leased_update,
  safe_error, claim_work_job, heartbeat_work_job, retry_work_job, complete_job, fail_work_job,
  record_work_dead_letter,
}
use myota_platform.Jobs.Commands.{
  enqueue_job, reconcile_queued_work_outbox, requeue_row, is_failed, redrive_failed_work_job,
  redrive_writes, conflicting, new_job,
}
use myota_platform.Jobs.History.{
  Call, enqueue, reconcile, claim, heartbeat, retry, complete, fail, dead_letter, redrive, settled,
  step, run, job_after, job_after_all,
}

-- An UPDATE by key, read at a row that is there.
row_after :
    (i k : String) (g : Job → Bool) (f : Job → Job)
    → ((x : Job) → (f x).id ≡ x.id)
    → (jobs : List Job) (j : Job) → find_row job_id_of k jobs ≡ some j
    → find_row job_id_of k (update_row job_id_of i g f jobs)
      ≡ some (if str_eq i k && g j then f j else j)
row_after i k g f same jobs j h = find_row_after job_id_of i k g f same jobs ∙ (rw h (ground arith))

-- A guarded UPDATE, committed or rolled back, leaves the rows that the UPDATE leaves.
pub jobs-leased_update :
    (i token : String) (f : Job → Job) (db : Db)
    → (settled db (leased_update i token f db)).jobs ≡ update_row job_id_of i (held token) f db.jobs
unfolding leased_update
jobs-leased_update i token f db = ground (arith, update_row_idle job_id_of i (held token) f db.jobs)

pub jobs-fail :
    (now : ℕ) (new_id i token error subject work_type : String) (n : ℕ) (db : Db)
    → (settled db (fail_work_job now new_id i token error subject work_type n db)).jobs
      ≡ update_row job_id_of i (held token) (fail_row now (safe_error error)) db.jobs
unfolding fail_work_job
jobs-fail now new_id i token error subject work_type n db =
    ground (arith, jobs-leased_update i token (fail_row now (safe_error error)) db)

module _ (k : String) (db : Db) (j : Job) (at_key : find_row job_id_of k db.jobs ≡ some j) where
  enqueue_after :
      (now : ℕ) (c : Option String) (new_id kind : String) (payload : Json) (key : Option String)
      → find_row job_id_of k (enqueue_job now c new_id kind payload key db).1.jobs ≡ some j
  unfolding enqueue_job
  enqueue_after now c new_id kind payload key = elim (Option-cases (conflicting key db.jobs)) [
    | inl e ↦ ground (
      arith,
      find_row-append job_id_of k db.jobs (new_job now new_id kind payload key ∷ []) {x = j},
    )
    | inr (x, e) ↦ ground arith
  ]

  pub redrive_after :
      (now : ℕ) (oid aid i actor reason : String)
      → find_row job_id_of k
          (settled db (redrive_failed_work_job now oid aid i actor reason db)).jobs
        ≡ some (job_after k j (redrive now oid aid i actor reason))
  unfolding redrive_failed_work_job redrive_writes job_after requeue_row
  redrive_after now oid aid i actor reason =
      let g : Job → Bool = λ x. is_failed x.status in
      let after = row_after i k g (requeue_row now) (λ x. refl) db.jobs j at_key in
      elim (String-cases i k) [
        | inr (e, n) ↦ ground (arith, after)
        | inl (e, p) ↦
            let found : find_row job_id_of i db.jobs ≡ some j = rw p at_key in
            ground (arith, found, after)
      ]

  -- Every transaction acts on the row under `k` as the life of that job says.
  step_after : (c : Call) → find_row job_id_of k (step db c).jobs ≡ some (job_after k j c)
  unfolding step job_after
  step_after (enqueue now c new_id kind payload key) = enqueue_after now c new_id kind payload key
  step_after reconcile = unfold reconcile_queued_work_outbox in at_key
  step_after (claim now token i s) =
      unfold claim_work_job claim_row in
      row_after i k (claimable now) (claim_row now token s) (λ x. refl) db.jobs j at_key
  step_after (heartbeat now i token s) =
      unfold heartbeat_work_job heartbeat_row in
      row_after i k (held token) (heartbeat_row now s) (λ x. refl) db.jobs j at_key
  step_after (retry now i token error d) =
      unfold retry_work_job retry_row in
      rw jobs-leased_update (
        row_after i k (held token) (retry_row now d (safe_error error)) (λ x. refl) db.jobs j
          at_key)
  step_after (complete now i token) =
      unfold complete_job complete_row in
      rw jobs-leased_update
        (row_after i k (held token) (complete_row now) (λ x. refl) db.jobs j at_key)
  step_after (fail now new_id i token error subject work_type n) =
      unfold fail_row in
      rw jobs-fail
        (row_after i k (held token) (fail_row now (safe_error error)) (λ x. refl) db.jobs j at_key)
  step_after (dead_letter new_id subject work_id work_type n category) =
      unfold record_work_dead_letter in at_key
  step_after (redrive now oid aid i actor reason) = redrive_after now oid aid i actor reason

-- Whatever sequence of transactions runs, in any order and from any number of clients, the row of a
-- job is what the life of that one job says: no other job, command or dead letter interferes.
pub run-job_after_all :
    (k : String) (cs : List Call) (db : Db) (j : Job)
    → find_row job_id_of k db.jobs ≡ some j
    → find_row job_id_of k (run db cs).jobs ≡ some (job_after_all k j cs)
unfolding run job_after_all
run-job_after_all k [] db j h = h
run-job_after_all k (c ∷ cs) db j h =
    run-job_after_all k cs (step db c) (job_after k j c) (step_after k db j h c)
