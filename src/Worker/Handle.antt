-- ===== src/Worker/Handle.antt =====
-- services/activity_worker.py: handle_message. The function runs against a schedule: what other
-- clients commit before each of its own transactions, the clock, the identifiers that `new_id()`
-- gives, whether the database answers, and how the handler of the job ends. That the dead letter of a refused
-- message, or telling the broker, raises is not among the schedules.
use myota_platform.Base.{
  ℕ, String, Bool, true, false, not, Option, none, some, List, [], ◌∷◌, str_eq, leb, if◌then◌else◌,
  min, max, ◌^◌, find_row,
}
use myota_platform.Base.Raise.{ok, err}
use myota_platform.Json.{Json}
use myota_platform.Jobs.Tables.{JobStatus, succeeded, failed, Db, job_id_of}
use myota_platform.Jobs.Leases.{
  claim_work_job, heartbeat_work_job, complete_job, retry_work_job, fail_work_job,
  record_work_dead_letter,
}
use myota_platform.Jobs.History.{Call, run}
use myota_platform.Worker.Contract.{
  Kind, name_of, work_subject, Message, accepted_work_id, remove_prefix,
}

-- what the broker is told of the message
pub data Disposition : Type 0 where
  acked termed unsettled : Disposition
  naked : (delay : ℕ) → Disposition

abbrev pub max_deliveries : ℕ
max_deliveries = 8

abbrev pub lease_seconds : ℕ
lease_seconds = 120

-- a round of the loop that claims: one transaction or two
pub record Attempt : Type 0 where
  pub before : List Call
  pub now : ℕ
  pub token : String
  pub letter_id : String
  pub answers : Bool

-- a heartbeat while the handler runs
pub record Beat : Type 0 where
  pub before : List Call
  pub now : ℕ
  pub answers : Bool

-- the end of the handler, and the transaction that records it
pub record Finish : Type 0 where
  pub handler_error : Option String
  pub before : List Call
  pub now : ℕ
  pub letter_id : String
  pub answers : Bool
  -- for the transaction after an error
  pub before_settle : List Call
  pub settle_now : ℕ
  pub settle_answers : Bool

-- min(300, 2 ** min(max(1, delivery), 8))
unfoldable pub redelivery_delay : ℕ → ℕ
redelivery_delay delivery = min 300 (2 ^ min (max 1 delivery) 8)

abbrev pub is_terminal : JobStatus → Bool
is_terminal succeeded = true
is_terminal failed = true
is_terminal _ = false

module _ (kind : Kind) (message : Message) (work_id work_type : String) where
  abbrev delivery : ℕ
  delivery = message.num_delivered

  -- the transaction of the except branch, once a lease was held
  unfoldable pub settle_error : String → Finish → String → Db → Disposition × Db
  settle_error token f error db =
      let db' = run db f.before_settle in
      if not f.settle_answers
      then (unsettled, db')
      else if leb max_deliveries delivery
      then elim (fail_work_job f.settle_now f.letter_id work_id token error message.subject
          work_type delivery db') [ ok db'' ↦ (acked, db'') | err e ↦ (unsettled, db') ]
      else elim (retry_work_job f.settle_now work_id token error (redelivery_delay delivery) db') [
        | ok db'' ↦ (naked (redelivery_delay delivery), db'')
        | err e ↦ (unsettled, db')
      ]

  -- `await task`, complete_job and the acknowledgement
  unfoldable pub finish_job : String → Finish → Db → Disposition × Db
  unfolding settle_error
  finish_job token f db = elim f.handler_error [
    | some error ↦ settle_error token f error db
    | none ↦
        let db' = run db f.before in
        if not f.answers
        then settle_error token f "OperationalError" db'
        else elim (complete_job f.now work_id token db') [
          | ok db'' ↦ (acked, db'')
          | err e ↦ settle_error token f "RuntimeError" db'
        ]
  ]

  -- the heartbeats; their result is not looked at
  unfoldable pub beat_until_done : String → List Beat → Finish → Db → Disposition × Db
  beat_until_done token [] f db = finish_job token f db
  beat_until_done token (b ∷ bs) f db =
      let db' = run db b.before in
      let rest =
        beat_until_done token bs f (heartbeat_work_job b.now work_id token lease_seconds db').1 in
      if b.answers then rest else settle_error token f "OperationalError" db'

  -- the loop that claims; past the end of the schedule it is still waiting
  unfoldable pub claim_loop : List Attempt → List Beat → Finish → Db → Disposition × Db
  claim_loop [] bs f db = (unsettled, db)
  claim_loop (a ∷ as_) bs f db =
      let db' = run db a.before in
      let (claimed, db'') = claim_work_job a.now a.token work_id lease_seconds db' in
      let again = claim_loop as_ bs f db'' in
      if not a.answers then (naked (redelivery_delay delivery), db') else elim claimed [
        | some c ↦ beat_until_done c.lease_token bs f db''
        | none ↦ elim (find_row job_id_of work_id db''.jobs) [
          | none ↦ (
            termed,
            record_work_dead_letter a.letter_id message.subject (some work_id) (some work_type)
                delivery "job_row_missing" db'',
          )
          | some j ↦
              if not (str_eq j.kind (name_of kind))
              then (
                termed,
                record_work_dead_letter a.letter_id message.subject (some work_id) (some work_type)
                    delivery "job_kind_mismatch" db'',
              )
              else if is_terminal j.status
              then (acked, db'')
              else again
        ]
      ]

module _ (uuid : Json → Option String) where
  unfoldable pub handle_message :
      Kind → Message → String → List Attempt → List Beat → Finish → Db → Disposition × Db
  handle_message kind message letter_id attempts beats f db =
      elim (accepted_work_id uuid kind message) [
        | none ↦ (
          termed,
          record_work_dead_letter letter_id message.subject none none message.num_delivered
              "invalid_envelope" db,
        )
        | some work_id ↦
            claim_loop kind message work_id (remove_prefix "myota.work." (work_subject kind))
              attempts beats f db
      ]
