-- ===== src/Tests/Jobs.antt =====
-- The theorems on jobs at concrete tables.
use myota_platform.Base.{
  find_row, none, ◌≡◌, inr, All, some, arith, ℕ, refl, String, ◌≤◌, false, true, length, suc,
  text_ne,
}
use myota_platform.Jobs.Leasing.{RespectLease, succeeded_stays, lease_is_exclusive}
use myota_platform.Jobs.Fencing.{Write, attempt, lost_lease_is_fenced}
use myota_platform.Jobs.Invariant.{AllLeased, run-AllLeased}
use myota_platform.Jobs.Commands.{
  reconcile_queued_work_outbox, enqueue_job, redrive_failed_work_job, conflicting, unresolved_of,
  new_job, audit_text_ok,
}
use myota_platform.Jobs.History.{settled, run, job_after_all}
use myota_platform.Jobs.Tables.{job_id_of, lease_lost, Job}
use myota_platform.Tests.Data.{
  job_id, db_of, leased_job, done_job, others, queued_job, failed_job, event_id,
}
use myota_platform.Json.{null}
use myota_platform.Base.Raise.{err, is_ok}
use myota_platform.Jobs.Dispatch.{Covered, HasCommand, reconcile_covers_queued, enqueue-HasCommand}
use myota_platform.Jobs.Refinement.{run-job_after_all}
use myota_platform.Jobs.Leases.{
  heartbeat_work_job, claim_work_job, is_some, complete_job, claim_row, complete_row,
  work_type_by_kind, fail_row, held,
}
use myota_platform.Jobs.Redrive.{redrive_reopens}
use myota_platform.Base.Text.{strip}

run-job_after_all_example :
    find_row job_id_of job_id (run (db_of leased_job) others).jobs
    ≡ some (job_after_all job_id leased_job others)
unfolding find_row claim_row new_job
run-job_after_all_example = run-job_after_all job_id others (db_of leased_job) leased_job refl

succeeded_stays_example :
    find_row job_id_of job_id (run (db_of done_job) others).jobs ≡ some done_job
unfolding find_row complete_row claim_row new_job
succeeded_stays_example = succeeded_stays job_id others (db_of done_job) done_job refl refl

-- the calls of `others` keep off the lease of token-a until it expires at 120000200
others-RespectLease : RespectLease job_id "token-a" 120000200 others
others-RespectLease = (inr (omega arith), (inr (text_ne "token-b" "token-a" refl), (tt, tt)))

lease_is_exclusive_example :
    (find_row job_id_of job_id (run (db_of leased_job) others).jobs ≡ some leased_job)
    × ((now s : ℕ) (t : String)
        → now ≤ 120000200
        → (claim_work_job now t job_id s (run (db_of leased_job) others)).0 ≡ none)
    × ((now : ℕ) → is_ok (complete_job now job_id "token-a" (run (db_of leased_job) others)) ≡ true)
unfolding find_row claim_row new_job
lease_is_exclusive_example =
    lease_is_exclusive job_id "token-a" 120000200 others (db_of leased_job) leased_job refl
      (refl, refl, refl) others-RespectLease

lost_lease_is_fenced_example :
    ((w : Write) → attempt job_id "token-c" w (run (db_of leased_job) others) ≡ err lease_lost)
    × ((now s : ℕ)
        → heartbeat_work_job now job_id "token-c" s (run (db_of leased_job) others)
          ≡ (false, run (db_of leased_job) others))
unfolding find_row claim_row new_job held
lost_lease_is_fenced_example =
    lost_lease_is_fenced job_id "token-c" others (db_of leased_job) leased_job refl refl
      (text_ne "token-b" "token-c" refl, tt)

run-AllLeased_example : AllLeased (run (db_of leased_job) others)
unfolding claim_row
run-AllLeased_example =
    run-AllLeased (db_of leased_job) others
      (record { leased = λ e. (refl, refl); free = λ e. cc }, tt)

reconcile_covers_queued_example :
    let after = (reconcile_queued_work_outbox (db_of queued_job)).1 in
    All (Covered after.outbox) after.jobs × (reconcile_queued_work_outbox after ≡ (0, after))
reconcile_covers_queued_example = reconcile_covers_queued (db_of queued_job)

enqueue-HasCommand_example :
    let (id, after) =
      enqueue_job 500 none "new" "ADIF_IMPORT" null (some "key") (db_of queued_job) in
    HasCommand after.outbox id
    × ((j : Job)
        → conflicting (some "key") (db_of queued_job).jobs ≡ some j
        → (id ≡ j.id) × (after.jobs ≡ (db_of queued_job).jobs))
unfolding work_type_by_kind
enqueue-HasCommand_example =
    enqueue-HasCommand 500 none "new" "ADIF_IMPORT" null (some "key") (db_of queued_job) refl

redrive_reopens_example :
    let after = settled (db_of failed_job) (
      redrive_failed_work_job 500 event_id "audit-1" job_id " operator" "fixed"
        (db_of failed_job)) in
    ((later s : ℕ) (t : String)
      → 500 ≤ later
      → is_some (claim_work_job later t job_id s after).0 ≡ true)
    × HasCommand after.outbox event_id
    × (length after.audits ≡ suc 0)
    × All (λ d. unresolved_of job_id d ≡ false) after.dead_letters
unfolding find_row fail_row claim_row new_job work_type_by_kind audit_text_ok strip
redrive_reopens_example =
    redrive_reopens 500 event_id "audit-1" job_id " operator" "fixed" (db_of failed_job) failed_job
      refl refl refl refl refl
