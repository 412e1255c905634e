-- ===== src/Jobs/Leasing.antt =====
-- What the leases of services/activity_repository.py promise to workers: one holder at a time, no
-- write by a worker whose lease was taken over, and results that stay.
use myota_platform.Base.{
  ℕ, ◌≤◌, String, ◌≡◌, refl, ◌≢◌, ap, ◌∙◌, ◌⊎◌, true, false, none, some, List, [], ◌∷◌, eq_iff,
  arith, find_row, All,
}
use myota_platform.Base.Raise.{is_ok}
use myota_platform.Jobs.Tables.{running, succeeded, Job, Db, job_id_of}
use myota_platform.Jobs.Leases.{
  is_some, is_running, claimable, claim_row, held, heartbeat_row, retry_row, complete_row, fail_row,
  leased_update, claim_work_job, complete_job,
}
use myota_platform.Jobs.Commands.{requeue_row}
use myota_platform.Jobs.History.{
  Call, claim, heartbeat, retry, complete, fail, redrive, run, job_after, job_after_all,
}
use myota_platform.Jobs.Refinement.{run-job_after_all}

-- A running job has a lease; a job that is not running has none.
pub record IsLeased (j : Job) : Type 0 where
  pub leased :
      is_running j.status ≡ true
      → (is_some j.lease_token ≡ true) × (is_some j.lease_expires_at ≡ true)
  pub free : is_running j.status ≡ false → (j.lease_token ≡ none) × (j.lease_expires_at ≡ none)

pub job_after-IsLeased : (k : String) (j : Job) (c : Call) → IsLeased j → IsLeased (job_after k j c)
unfolding job_after claim_row held heartbeat_row retry_row complete_row fail_row requeue_row
job_after-IsLeased k j (claim now token i s) h = ground arith
job_after-IsLeased k j (redrive now oid aid i actor reason) h = ground arith
job_after-IsLeased k j _ h = ground arith

succeeded_after : (k : String) (j : Job) (c : Call) → j.status ≡ succeeded → job_after k j c ≡ j
unfolding job_after claimable held
succeeded_after k j (claim now token i s) h = ground arith
succeeded_after k j _ h = ground arith

succeeded_after_all :
    (k : String) (cs : List Call) (j : Job) → j.status ≡ succeeded → job_after_all k j cs ≡ j
unfolding job_after_all
succeeded_after_all k [] j h = refl
succeeded_after_all k (c ∷ cs) j h = rw (succeeded_after k j c h) (succeeded_after_all k cs j h)

-- A job that has succeeded is never touched again: whatever transactions follow (claims, redeliveries,
-- redrives, late retries or failures of other workers), its row stays as it is.
pub succeeded_stays :
    (k : String) (cs : List Call) (db : Db) (j : Job)
    → find_row job_id_of k db.jobs ≡ some j
    → j.status ≡ succeeded
    → find_row job_id_of k (run db cs).jobs ≡ some j
succeeded_stays k cs db j at_key done =
    run-job_after_all k cs db j at_key ∙ ap some (succeeded_after_all k cs j done)

-- A call that leaves the lease alone that `token` has on `k` until `expiry`: it is about another job,
-- it names another token, or it claims while the lease has not expired.
abbrev pub RespectsLease : String → String → ℕ → Call → Type 0
RespectsLease k token expiry (claim now t i s) = (i ≢ k) ⊎ (now ≤ expiry)
RespectsLease k token expiry (heartbeat now i t s) = (i ≢ k) ⊎ (t ≢ token)
RespectsLease k token expiry (retry now i t e d) = (i ≢ k) ⊎ (t ≢ token)
RespectsLease k token expiry (complete now i t) = (i ≢ k) ⊎ (t ≢ token)
RespectsLease k token expiry (fail now new_id i t e s w n) = (i ≢ k) ⊎ (t ≢ token)
RespectsLease k token expiry _ = Unit

abbrev pub RespectLease : String → String → ℕ → List Call → Type 0
RespectLease k token expiry = All (RespectsLease k token expiry)

module _ (k token : String) (expiry : ℕ) where
  abbrev pub HasLease : Job → Type 0
  HasLease j =
      (j.status ≡ running) × (j.lease_token ≡ some token) × (j.lease_expires_at ≡ some expiry)

  protected :
      (j : Job) (c : Call) → HasLease j → RespectsLease k token expiry c → job_after k j c ≡ j
  unfolding job_after claimable held
  protected j (claim now t i s) h r = ground (arith, eq_iff i k)
  protected j (heartbeat now i t s) h r = ground (arith, eq_iff i k, eq_iff token t)
  protected j (retry now i t e d) h r = ground (arith, eq_iff i k, eq_iff token t)
  protected j (complete now i t) h r = ground (arith, eq_iff i k, eq_iff token t)
  protected j (fail now new_id i t e s w n) h r = ground (arith, eq_iff i k, eq_iff token t)
  protected j (redrive now oid aid i actor reason) h r = ground arith
  protected j _ h r = refl

  protected_all :
      (cs : List Call) (j : Job)
      → HasLease j
      → RespectLease k token expiry cs
      → job_after_all k j cs ≡ j
  unfolding job_after_all
  protected_all [] j h r = refl
  protected_all (c ∷ cs) j h r = rw (protected j c h r.0) (protected_all cs j h r.1)

complete_held :
    (now : ℕ) (k token : String) (db : Db) (j : Job)
    → find_row job_id_of k db.jobs ≡ some j
    → held token j ≡ true
    → is_ok (complete_job now k token db) ≡ true
unfolding complete_job leased_update
complete_held now k token db j at_key h = ground arith

claim_refused :
    (now : ℕ) (token' k : String) (s : ℕ) (db : Db) (j : Job)
    → find_row job_id_of k db.jobs ≡ some j
    → claimable now j ≡ false
    → (claim_work_job now token' k s db).0 ≡ none
unfolding claim_work_job
claim_refused now token' k s db j at_key h = ground arith

-- While a worker's lease runs, it is the only one on the job: after any transactions that respect the
-- lease (other workers' claims before the expiry, and calls with other tokens), the row is as the
-- worker left it, a further claim before the expiry gets nothing, and the worker's completion is
-- accepted.
pub lease_is_exclusive :
    (k token : String) (expiry : ℕ) (cs : List Call) (db : Db) (j : Job)
    → find_row job_id_of k db.jobs ≡ some j
    → HasLease k token expiry j
    → RespectLease k token expiry cs
    → (find_row job_id_of k (run db cs).jobs ≡ some j)
      × ((now s : ℕ) (t : String) → now ≤ expiry → (claim_work_job now t k s (run db cs)).0 ≡ none)
      × ((now : ℕ) → is_ok (complete_job now k token (run db cs)) ≡ true)
lease_is_exclusive k token expiry cs db j at_key h r =
    let same : find_row job_id_of k (run db cs).jobs ≡ some j =
      run-job_after_all k cs db j at_key ∙ ap some (protected_all k token expiry cs j h r) in
    (
      same,
      λ now s t early.
          claim_refused now t k s (run db cs) j same (unfold claimable in ground arith),
      λ now.
          complete_held now k token (run db cs) j same
            (unfold held in ground (arith, eq_iff token token)),
    )
