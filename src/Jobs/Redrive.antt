-- ===== src/Jobs/Redrive.antt =====
-- Failure and redrive of work: fail_work_job and redrive_failed_work_job of
-- services/activity_repository.py.
use myota_platform.Base.{
  ℕ, suc, ◌≤◌, String, ◌≡◌, ◌∙◌, eq_refl, inl, inr, true, false, none, some, List, arith, find_row,
  update_where, All, length, length-append, Option-cases, update_where_settles,
}
use myota_platform.Base.Raise.{ok}
use myota_platform.Base.Text.{strip}
use myota_platform.Jobs.Tables.{Job, Db, WorkDeadLetter, job_id_of}
use myota_platform.Jobs.Leases.{is_some, is_work_kind, work_type_by_kind, claimable, claim_work_job}
use myota_platform.Jobs.Commands.{
  requeue_row, is_failed, audit_text_ok, unresolved_of, resolve_at, redrive_writes,
  redrive_failed_work_job,
}
use myota_platform.Jobs.History.{settled, job_after}
use myota_platform.Jobs.Refinement.{redrive_after}
use myota_platform.Jobs.Dispatch.{HasCommand, command_appended}

resolved-All :
    (i : String) (now : ℕ) (ds : List WorkDeadLetter)
    → All (λ d. unresolved_of i d ≡ false) (update_where (unresolved_of i) (resolve_at now) ds)
resolved-All i now ds =
    update_where_settles (unresolved_of i) (resolve_at now) ds
      (λ d. unfold unresolved_of resolve_at in ground arith)

reclaim :
    (later : ℕ) (t i : String) (s : ℕ) (db : Db) (j : Job)
    → find_row job_id_of i db.jobs ≡ some j
    → claimable later j ≡ true
    → is_some (claim_work_job later t i s db).0 ≡ true
unfolding claim_work_job
reclaim later t i s db j at_key h = ground arith

module _ (now : ℕ) (oid aid i actor reason : String) (db : Db) (j : Job)
    (at_key : find_row job_id_of i db.jobs ≡ some j) (has_failed : is_failed j.status ≡ true)
    (registered : is_work_kind j.kind ≡ true) (actor_ok : audit_text_ok 120 (strip actor) ≡ true)
    (reason_ok : audit_text_ok 500 (strip reason) ≡ true) where
  redrive_accepted :
      (w : String) × (redrive_failed_work_job now oid aid i actor reason db
        ≡ ok (redrive_writes now oid aid i w (strip actor) (strip reason) db))
  unfolding redrive_failed_work_job
  redrive_accepted = elim (Option-cases (work_type_by_kind j.kind)) [
    | inl e ↦ ground arith
    | inr (w, e) ↦ (w, ground arith)
  ]

  -- A failed job of a registered kind that is redriven with a valid actor and reason can be claimed
  -- again from that moment on, its new command is in the outbox, one audit row is added, and no
  -- dead letter of the job is left unresolved.
  pub redrive_reopens :
      let after = settled db (redrive_failed_work_job now oid aid i actor reason db) in
      ((later s : ℕ) (t : String)
        → now ≤ later
        → is_some (claim_work_job later t i s after).0 ≡ true)
      × HasCommand after.outbox oid
      × (length after.audits ≡ suc (length db.audits))
      × All (λ d. unresolved_of i d ≡ false) after.dead_letters
  redrive_reopens =
      let (w, accepted) = redrive_accepted in
      let row = redrive_after i db j at_key now oid aid i actor reason in
      (
        λ later s t late.
            reclaim later t i s _ (requeue_row now j)
              (row ∙ (unfold job_after in ground (arith, eq_refl i)))
              (unfold claimable requeue_row in ground arith),
        rw accepted (unfold redrive_writes in command_appended oid w i now now none db.outbox),
        rw accepted (unfold redrive_writes in rw length-append (omega arith)),
        rw accepted (unfold redrive_writes in resolved-All i now db.dead_letters),
      )
