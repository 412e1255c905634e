-- ===== src/Jobs/Dispatch.antt =====
-- Every queued job has its outbox command: enqueue_job and reconcile_queued_work_outbox of
-- services/activity_repository.py.
use myota_platform.Base.{
  ℕ, String, ◌≡◌, refl, inl, inr, true, Option, none, some, List, [], ◌∷◌, ◌++◌, arith, find_row,
  insert_row, find_row-append, find_row-last, find_row-insert_row_self, All, Bool-cases,
  Option-cases,
}
use myota_platform.Base.Sort.{sort, sort-All}
use myota_platform.Json.{Json}
use myota_platform.Jobs.Tables.{Job, OutboxRow, Db, event_id_of}
use myota_platform.Jobs.Leases.{work_type_by_kind, is_work_kind, is_some}
use myota_platform.Jobs.Commands.{
  command_row, needs_command, reconcile_one, reconcile_round, reconcile_loop, by_availability,
  reconcile_queued_work_outbox, insert_job, insert_command, enqueue_job, conflicting,
}

-- the command of a job is in the outbox
abbrev pub HasCommand : List OutboxRow → String → Type 0
HasCommand outbox k = is_some (find_row event_id_of k outbox) ≡ true

HasCommand-append :
    (k : String) (xs ys : List OutboxRow) → HasCommand xs k → HasCommand (xs ++ ys) k
HasCommand-append k xs ys h = elim (Option-cases (find_row event_id_of k xs)) [
  | inl e ↦ ground arith
  | inr (o, e) ↦ rw (find_row-append event_id_of k xs ys e)
]

round_keeps :
    (k : String) (j : Job) (outbox : List OutboxRow)
    → HasCommand outbox k
    → HasCommand (reconcile_round j outbox).0 k
unfolding reconcile_round reconcile_one
round_keeps k j outbox h = elim (Option-cases (work_type_by_kind j.kind)) [
  | inl e ↦ ground arith
  | inr (w, e) ↦ ground (
    arith,
    HasCommand-append k outbox (command_row j.id w j.id j.created_at j.available_at none ∷ []) h,
  )
]

pub command_appended :
    (k w a : String) (t u : ℕ) (c : Option String) (outbox : List OutboxRow)
    → HasCommand (outbox ++ command_row k w a t u c ∷ []) k
unfolding command_row
command_appended k w a t u c outbox =
    let r = find_row-last event_id_of (command_row k w a t u c) outbox in rw r.1

round_covers :
    (j : Job) (outbox : List OutboxRow)
    → needs_command j ≡ true
    → HasCommand (reconcile_round j outbox).0 j.id
unfolding reconcile_round reconcile_one
round_covers j outbox h = elim (Option-cases (work_type_by_kind j.kind)) [
  | inl e ↦ unfold needs_command in ground arith
  | inr (w, e) ↦
      ground (arith, command_appended j.id w j.id j.created_at j.available_at none outbox)
]

loop_keeps :
    (k : String) (jobs : List Job) (outbox : List OutboxRow)
    → HasCommand outbox k
    → HasCommand (reconcile_loop jobs outbox).0 k
unfolding reconcile_loop
loop_keeps k [] outbox h = h
loop_keeps k (j ∷ jobs) outbox h =
    loop_keeps k jobs (reconcile_round j outbox).0 (round_keeps k j outbox h)

abbrev pub Covered : List OutboxRow → Job → Type 0
Covered outbox j = needs_command j ≡ true → HasCommand outbox j.id

loop_covers :
    (jobs : List Job) (outbox : List OutboxRow) → All (Covered (reconcile_loop jobs outbox).0) jobs
unfolding reconcile_loop
loop_covers [] outbox = tt
loop_covers (j ∷ jobs) outbox =
    let rest = (reconcile_round j outbox).0 in
    ((λ n. loop_keeps j.id jobs rest (round_covers j outbox n)), loop_covers jobs rest)

-- rounds over covered jobs change nothing
round_idle :
    (j : Job) (outbox : List OutboxRow) → Covered outbox j → reconcile_round j outbox ≡ (outbox, 0)
unfolding reconcile_round reconcile_one
round_idle j outbox h = elim (Bool-cases (needs_command j)) [
  | inr e ↦ rw e
  | inl e ↦ elim (Option-cases (find_row event_id_of j.id outbox)) [
    | inl m ↦ let c = h e in ground arith
    | inr (o, m) ↦ ground arith
  ]
]

loop_idle :
    (jobs : List Job) (outbox : List OutboxRow)
    → All (Covered outbox) jobs
    → reconcile_loop jobs outbox ≡ (outbox, 0)
unfolding reconcile_loop
loop_idle [] outbox h = refl
loop_idle (j ∷ jobs) outbox h = ground (arith, round_idle j outbox h.0, loop_idle jobs outbox h.1)

-- After reconciliation every queued job of a registered kind has an outbox command under its own
-- identifier, and a second reconciliation inserts nothing and changes nothing.
pub reconcile_covers_queued :
    (db : Db)
    → let after = (reconcile_queued_work_outbox db).1 in
      All (Covered after.outbox) after.jobs × (reconcile_queued_work_outbox after ≡ (0, after))
unfolding reconcile_queued_work_outbox
reconcile_covers_queued db =
    let ordered = sort by_availability db.jobs in
    let covers = loop_covers ordered db.outbox in
    let idle = loop_idle ordered (reconcile_loop ordered db.outbox).0 covers in
    (
      sort-All by_availability (Covered (reconcile_loop ordered db.outbox).0) db.jobs covers,
      rw idle,
    )

command_inserted :
    (k w a : String) (t u : ℕ) (c : Option String) (outbox : List OutboxRow)
    → HasCommand (insert_row event_id_of (command_row k w a t u c) outbox) k
unfolding command_row
command_inserted k w a t u c outbox =
    let r = find_row-insert_row_self event_id_of (command_row k w a t u c) outbox in rw r.1

-- A job that is queued in one transaction with its command: after enqueue_job for a registered kind
-- the outbox holds a command under the returned identifier; with an idempotency key that a job has,
-- the identifier is that job's, and no job is added.
pub enqueue-HasCommand :
    (now : ℕ) (c : Option String) (new_id kind : String) (payload : Json) (key : Option String)
    (db : Db)
    → is_work_kind kind ≡ true
    → let (id, after) = enqueue_job now c new_id kind payload key db in
      HasCommand after.outbox id
      × ((j : Job) → conflicting key db.jobs ≡ some j → (id ≡ j.id) × (after.jobs ≡ db.jobs))
unfolding enqueue_job insert_command
enqueue-HasCommand now c new_id kind payload key db h =
    elim (Option-cases (work_type_by_kind kind)) [
      | inl e ↦ ground arith
      | inr (w, e) ↦
          let (id, db') = insert_job now new_id kind payload key db in
          (
            rw e (command_inserted id w id now now c db'.outbox),
            λ j m. unfold insert_job in ground arith,
          )
    ]
