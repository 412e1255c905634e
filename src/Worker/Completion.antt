-- ===== src/Worker/Completion.antt =====
-- When handle_message of services/activity_worker.py brings a job to its end.
use myota_platform.Base.{
  String, ℕ, List, ◌≡◌, ◌+◌, Option, find_row, true, some, find_row-update_row, ◌∷◌, none, arith,
  eq_refl, update_row, refl, [],
}
use myota_platform.Jobs.Leases.{
  heartbeat_work_job, claim_work_job, complete_job, held, claim_row, leased_update, heartbeat_row,
  complete_row, seconds, claimable, claimed_of,
}
use myota_platform.Worker.Contract.{Kind, Message, accepted_work_id, remove_prefix, work_subject}
use myota_platform.Worker.Handle.{
  handle_message, Disposition, claim_loop, beat_until_done, Beat, finish_job, Finish, acked,
  Attempt, lease_seconds,
}
use myota_platform.Jobs.Tables.{Db, Job, job_id_of, succeeded}
use myota_platform.Json.{Json}
use myota_platform.Jobs.History.{Call, run}
use myota_platform.Base.Raise.{ok}
use myota_platform.Jobs.Leasing.{RespectLease, lease_is_exclusive, HasLease}

-- Other clients leave the lease of `token` on the job alone while it runs: between two heartbeats, each
-- of which renews it, and before the completion. The database answers and the handler succeeds.
unfoldable pub IsUndisturbed : String → String → ℕ → List Beat → Finish → Type 0
IsUndisturbed k token expiry [] f =
    RespectLease k token expiry f.before × (f.answers ≡ true) × (f.handler_error ≡ none)
IsUndisturbed k token expiry (b ∷ bs) f =
    RespectLease k token expiry b.before
    × (b.answers ≡ true)
    × IsUndisturbed k token (b.now + seconds lease_seconds) bs f

-- the job under the key is leased
abbrev Leased : String → String → ℕ → Db → Type 0
Leased k token expiry db =
    (j : Job) × (find_row job_id_of k db.jobs ≡ some j) × HasLease k token expiry j

abbrev pub HasSucceeded : String → Disposition × Db → Type 0
HasSucceeded k r =
    (r.0 ≡ acked) × ((j : Job) × (find_row job_id_of k r.1.jobs ≡ some j) × (j.status ≡ succeeded))

run-Leased :
    (k token : String) (expiry : ℕ) (cs : List Call) (db : Db)
    → Leased k token expiry db
    → RespectLease k token expiry cs
    → Leased k token expiry (run db cs)
run-Leased k token expiry cs db (j, at_key, l) r =
    (j, (lease_is_exclusive k token expiry cs db j at_key l r).0, l)

heartbeat-Leased :
    (k token : String) (expiry now : ℕ) (db : Db)
    → Leased k token expiry db
    → Leased k token
        (now + seconds lease_seconds)
        (heartbeat_work_job now k token lease_seconds db).1
unfolding heartbeat_work_job held heartbeat_row
heartbeat-Leased k token expiry now db (j, at_key, l) = (
  heartbeat_row now lease_seconds j,
  rw
      (
        find_row-update_row job_id_of k (held token) (heartbeat_row now lease_seconds) (λ x. refl)
            db.jobs,
        at_key,
      )
      (ground (arith, eq_refl token)),
  (l.0, l.1, refl),
)

claim-Leased :
    (k token : String) (now : ℕ) (db : Db) (j : Job)
    → find_row job_id_of k db.jobs ≡ some j
    → claimable now j ≡ true
    → let (claimed, after) = claim_work_job now token k lease_seconds db in
      (claimed ≡ claimed_of token (some (claim_row now token lease_seconds j)))
      × Leased k token (now + seconds lease_seconds) after
unfolding claim_work_job claim_row
claim-Leased k token now db j at_key h = (
  ground arith,
  (
    claim_row now token lease_seconds j,
    rw
        (
          find_row-update_row job_id_of k (claimable now) (claim_row now token lease_seconds)
              (λ x. refl) db.jobs,
          at_key,
          h,
        )
        refl,
    (refl, refl, refl),
  ),
)

complete-Leased :
    (k token : String) (expiry now : ℕ) (db : Db)
    → Leased k token expiry db
    → (after : Db) × (complete_job now k token db ≡ ok after)
      × ((j : Job) × (find_row job_id_of k after.jobs ≡ some j) × (j.status ≡ succeeded))
unfolding complete_job leased_update held complete_row
complete-Leased k token expiry now db (j, at_key, l) = (
  record db { jobs = update_row job_id_of k (held token) (complete_row now) db.jobs },
  ground (arith, eq_refl token),
  (
    complete_row now j,
    rw (find_row-update_row job_id_of k (held token) (complete_row now) (λ x. refl) db.jobs, at_key)
        (ground (arith, eq_refl token)),
    refl,
  ),
)

module _ (kind : Kind) (message : Message) (k work_type token : String) where
  beats-HasSucceeded :
      (bs : List Beat) (f : Finish) (expiry : ℕ) (db : Db)
      → Leased k token expiry db
      → IsUndisturbed k token expiry bs f
      → HasSucceeded k (beat_until_done kind message k work_type token bs f db)
  unfolding beat_until_done finish_job IsUndisturbed
  beats-HasSucceeded [] f expiry db l (calm, answers, fine) =
      let (after, done, row) =
        complete-Leased k token expiry f.now (run db f.before)
          (run-Leased k token expiry f.before db l calm) in
      rw (fine, answers, done) (refl, row)
  beats-HasSucceeded (b ∷ bs) f expiry db l (calm, answers, more) =
      let next =
        beats-HasSucceeded bs f (b.now + seconds lease_seconds)
          (heartbeat_work_job b.now k token lease_seconds (run db b.before)).1
          (heartbeat-Leased k token expiry b.now (run db b.before)
            (run-Leased k token expiry b.before db l calm))
          more in
      rw answers next

-- A valid message for a job that can be claimed is worked off: if the database answers, the handler
-- raises nothing and other clients leave the lease alone while it runs (which every heartbeat renews),
-- then handle_message acknowledges the message and the job has succeeded.
pub claimed_is_completed :
    (uuid : Json → Option String) (kind : Kind) (message : Message) (letter_id : String)
    (a : Attempt) (as_ : List Attempt) (bs : List Beat) (f : Finish) (db : Db) (k : String)
    (j : Job)
    → accepted_work_id uuid kind message ≡ some k
    → find_row job_id_of k (run db a.before).jobs ≡ some j
    → claimable a.now j ≡ true
    → a.answers ≡ true
    → IsUndisturbed k a.token (a.now + seconds lease_seconds) bs f
    → HasSucceeded k (handle_message uuid kind message letter_id (a ∷ as_) bs f db)
unfolding handle_message claim_loop
claimed_is_completed uuid kind message letter_id a as_ bs f db k j valid at_key h answers calm =
    let (claimed, leased) = claim-Leased k a.token a.now (run db a.before) j at_key h in
    let done =
      beats-HasSucceeded kind message k (remove_prefix "myota.work." (work_subject kind)) a.token bs
        f (a.now + seconds lease_seconds)
        (claim_work_job a.now a.token k lease_seconds (run db a.before)).1 leased calm in
    rw (handle_message, valid, claim_loop, answers, claimed) done
