-- ===== src/Worker/Acknowledgement.antt =====
-- When handle_message of services/activity_worker.py gives a message up.
use myota_platform.Base.{
  List, [], ◌∷◌, ℕ, String, ◌≡◌, refl, inl, inr, true, some, arith, find_row, find_row-update_row,
  Option-cases, Bool-cases, List, Option, ◌∷◌, none,
}
use myota_platform.Base.Raise.{Result, ok, err}
use myota_platform.Jobs.Tables.{Job, Db, job_id_of, JobError}
use myota_platform.Jobs.Leases.{
  held, complete_row, fail_row, leased_update, complete_job, fail_work_job, safe_error,
  record_dead_letter, retry_work_job, claim_work_job,
}
use myota_platform.Worker.Handle.{
  is_terminal, settle_error, Finish, acked, redelivery_delay, finish_job, beat_until_done,
  claim_loop, handle_message, Beat, Attempt, lease_seconds,
}
use myota_platform.Worker.Contract.{Kind, Message, accepted_work_id}
use myota_platform.Jobs.History.{run}
use myota_platform.Json.{Json}

-- the job under the key has ended
abbrev pub HasEnded : String → Db → Type 0
HasEnded k db = (j : Job) × (find_row job_id_of k db.jobs ≡ some j) × (is_terminal j.status ≡ true)

row_ended :
    (k : String) (db : Db) (j : Job)
    → find_row job_id_of k db.jobs ≡ some j
    → is_terminal j.status ≡ true
    → HasEnded k db
row_ended k db j m t = (j, m, t)

leased-HasEnded :
    (k token : String) (f : Job → Job) (db db' : Db)
    → ((x : Job) → (f x).id ≡ x.id)
    → ((x : Job) → is_terminal (f x).status ≡ true)
    → leased_update k token f db ≡ ok db'
    → HasEnded k db'
unfolding leased_update
leased-HasEnded k token f db db' same ends e = elim (Option-cases (find_row job_id_of k db.jobs)) [
  | inl m ↦ ground arith
  | inr (j, m) ↦
      (f j, ground (arith, find_row-update_row job_id_of k (held token) f same db.jobs), ends j)
]

complete-HasEnded :
    (now : ℕ) (k token : String) (db db' : Db)
    → complete_job now k token db ≡ ok db'
    → HasEnded k db'
unfolding complete_job complete_row
complete-HasEnded now k token db db' e =
    leased-HasEnded k token (complete_row now) db db' (λ x. refl) (λ x. refl) e

fail-HasEnded :
    (now : ℕ) (new_id k token error subject work_type : String) (n : ℕ) (db db' : Db)
    → fail_work_job now new_id k token error subject work_type n db ≡ ok db'
    → HasEnded k db'
unfolding fail_work_job fail_row record_dead_letter
fail-HasEnded now new_id k token error subject work_type n db db' e =
    by (leased_update k token (fail_row now (safe_error error)) db) refl
  where
    by :
        (r : Result JobError Db)
        → leased_update k token (fail_row now (safe_error error)) db ≡ r
        → HasEnded k db'
    by (err x) q = ground arith
    by (ok m) q =
        let (j, at, ended) =
          leased-HasEnded k token (fail_row now (safe_error error)) db m (λ x. refl) (λ x. refl)
            q in
        (j, ground arith, ended)

module _ (kind : Kind) (message : Message) (work_id work_type : String) where
  settle-HasEnded :
      (token : String) (f : Finish) (error : String) (db db' : Db)
      → settle_error kind message work_id work_type token f error db ≡ (acked, db')
      → HasEnded work_id db'
  unfolding settle_error
  settle-HasEnded token f error db db' e =
      by
        (fail_work_job f.settle_now f.letter_id work_id token error message.subject work_type
          message.num_delivered (run db f.before_settle))
        (retry_work_job f.settle_now work_id token error (redelivery_delay message.num_delivered)
          (run db f.before_settle))
        refl refl
    where
      by :
          (r s : Result JobError Db)
          → fail_work_job f.settle_now f.letter_id work_id token error message.subject work_type
              message.num_delivered
              (run db f.before_settle)
            ≡ r
          → retry_work_job f.settle_now work_id token error
              (redelivery_delay message.num_delivered)
              (run db f.before_settle)
            ≡ s
          → HasEnded work_id db'
      by (ok m) (ok n) p q =
          let ended =
            fail-HasEnded f.settle_now f.letter_id work_id token error message.subject work_type
              message.num_delivered (run db f.before_settle) m p in
          ground arith
      by (ok m) (err y) p q =
          let ended =
            fail-HasEnded f.settle_now f.letter_id work_id token error message.subject work_type
              message.num_delivered (run db f.before_settle) m p in
          ground arith
      by (err x) (ok n) p q = ground arith
      by (err x) (err y) p q = ground arith

  finish-HasEnded :
      (token : String) (f : Finish) (db db' : Db)
      → finish_job kind message work_id work_type token f db ≡ (acked, db')
      → HasEnded work_id db'
  unfolding finish_job
  finish-HasEnded token f db db' e = elim (Option-cases f.handler_error) [
    | inr (error, h) ↦ settle-HasEnded token f error db db' (rw h at e)
    | inl h ↦ elim (Bool-cases f.answers) [
      | inr a ↦ settle-HasEnded token f "OperationalError" (run db f.before) db' (rw (h, a) at e)
      | inl a ↦ by (complete_job f.now work_id token (run db f.before)) refl h a
    ]
  ]
    where
      by :
          (r : Result JobError Db)
          → complete_job f.now work_id token (run db f.before) ≡ r
          → f.handler_error ≡ none
          → f.answers ≡ true
          → HasEnded work_id db'
      by (ok m) q h a =
          let ended = complete-HasEnded f.now work_id token (run db f.before) m q in ground arith
      by (err x) q h a =
          settle-HasEnded token f "RuntimeError" (run db f.before) db' (rw (h, a, q) at e)

  beats-HasEnded :
      (token : String) (bs : List Beat) (f : Finish) (db db' : Db)
      → beat_until_done kind message work_id work_type token bs f db ≡ (acked, db')
      → HasEnded work_id db'
  unfolding beat_until_done
  beats-HasEnded token [] f db db' e = finish-HasEnded token f db db' e
  beats-HasEnded token (b ∷ bs) f db db' e = elim (Bool-cases b.answers) [
    | inl a ↦ beats-HasEnded token bs f _ db' (rw a at e)
    | inr a ↦ settle-HasEnded token f "OperationalError" (run db b.before) db' (rw a at e)
  ]

  loop-HasEnded :
      (as_ : List Attempt) (bs : List Beat) (f : Finish) (db db' : Db)
      → claim_loop kind message work_id work_type as_ bs f db ≡ (acked, db')
      → HasEnded work_id db'
  unfolding claim_loop
  loop-HasEnded [] bs f db db' e = ground arith
  loop-HasEnded (a ∷ as_) bs f db db' e =
      let again =
        loop-HasEnded as_ bs f
          (claim_work_job a.now a.token work_id lease_seconds (run db a.before)).1 db' in
      elim (Option-cases (claim_work_job a.now a.token work_id lease_seconds (run db a.before)).0) [
        | inr (c, h) ↦
            let running =
              beats-HasEnded c.lease_token bs f
                (claim_work_job a.now a.token work_id lease_seconds (run db a.before)).1 db' in
            ground arith
        | inl h ↦
            elim (Option-cases (
              find_row job_id_of work_id
                (claim_work_job a.now a.token work_id lease_seconds (run db a.before)).1.jobs)) [
                  | inl m ↦ ground arith
                  | inr (j, m) ↦ elim (Bool-cases (is_terminal j.status)) [
                    | inr t ↦ ground arith
                    | inl t ↦
                        let found =
                          row_ended work_id
                            (claim_work_job a.now a.token work_id lease_seconds (run db a.before)).1
                            j m t in
                        ground arith
                  ]
                ]
      ]

-- A message is acknowledged only once its job has ended: if handle_message, under any schedule of other
-- clients, clocks, database failures and handler errors, acknowledges a message, then the message was
-- valid work for a job, and that job's row is there and has succeeded or failed.
pub acked-HasEnded :
    (uuid : Json → Option String) (kind : Kind) (message : Message) (letter_id : String)
    (attempts : List Attempt) (beats : List Beat) (f : Finish) (db after : Db)
    → handle_message uuid kind message letter_id attempts beats f db ≡ (acked, after)
    → (work_id : String) × (accepted_work_id uuid kind message ≡ some work_id)
      × HasEnded work_id after
unfolding handle_message
acked-HasEnded uuid kind message letter_id attempts beats f db after e =
    elim (Option-cases (accepted_work_id uuid kind message)) [
      | inl m ↦ ground arith
      | inr (w, m) ↦ (
        w,
        m,
        loop-HasEnded kind message w _ attempts beats f db after (rw (handle_message, m) at e),
      )
    ]
