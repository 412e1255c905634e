-- ===== src/Notifications/HandledOnce.antt =====
-- An event that consume_forever of services/event_consumer.py has processed is not handled again.
use myota_platform.Base.{
  refl, true, inl, inr, arith, ◌∷◌, [], ℕ, String, List, ◌≡◌, member, Bool-cases, ◌++◌, not, ◌∙◌,
  ◌&&◌, ap, ltb,
}
use myota_platform.Base.Raise.{ok, err, Result, Result-cases}
use myota_platform.Notifications.Inbox.{
  Formats, Failure, InboxDb, recover, finish, process, consume, consume_all, Delivery, Weather,
  committed, Accepted, other, accepted, is_permanent, acked, max_deliveries,
}
use myota_platform.Json.{Fields}
use myota_platform.Notifications.Deliveries.{settled_for_a_reason, IsRecorded}

module _ (py : Formats) (supported_major : ℕ) {S : Type 0}
    (handles : Fields → S → Result Failure S) where
  member-grows :
      (id k : String) (ids : List String) → member id ids ≡ true → member id (ids ++ k ∷ []) ≡ true
  member-grows id k [] h = cc
  member-grows id k (j ∷ ids) h = ground (arith, member-grows id k ids)

  -- what does not run a handler leaves its state and the processed events
  abbrev Same : InboxDb S → InboxDb S → Type 0
  Same db db' = (db'.processed ≡ db.processed) × (db'.state ≡ db.state)

  recover-Same :
      (w : Weather) (d : Delivery) (f : Failure) (db : InboxDb S)
      → Same db (recover py supported_major handles w d f db).1
  unfolding recover
  recover-Same w d f db =
      elim (Bool-cases (not (is_permanent f) && ltb d.delivered max_deliveries)) [
        | inl b ↦ rw b (refl, refl)
        | inr b ↦ elim (Bool-cases w.buries) [
          | inl y ↦ rw (b, y) (refl, refl)
          | inr y ↦ rw (b, y) (refl, refl)
        ]
      ]

  finish-Same :
      (w : Weather) (d : Delivery) (r : Result Failure (Unit {0})) (db : InboxDb S)
      → Same db (finish py supported_major handles w d (r, db)).1
  unfolding finish
  finish-Same w d (err f) db = recover-Same w d f db
  finish-Same w d (ok u) db = elim (Bool-cases w.acknowledges) [
    | inl y ↦ rw y (refl, refl)
    | inr y ↦ rw y (recover-Same w d other db)
  ]

  process-grows :
      (id : String) (w : Weather) (a : Accepted) (db : InboxDb S)
      → member id db.processed ≡ true
      → member id (process py supported_major handles w a db).1.processed ≡ true
  unfolding process committed
  process-grows id w a db h = elim (Bool-cases w.commits) [
    | inr c ↦ rw c h
    | inl c ↦ elim (Bool-cases (member a.event_id db.processed)) [
      | inl m ↦ rw (c, m) h
      | inr m ↦ elim (Result-cases (handles a.event db.state)) [
        | inr (f, e) ↦ rw (c, m, e) h
        | inl (s, e) ↦ rw (c, m, e) (member-grows id a.event_id db.processed h)
      ]
    ]
  ]

  process_again :
      (w : Weather) (a : Accepted) (db : InboxDb S)
      → member a.event_id db.processed ≡ true
      → (process py supported_major handles w a db).1 ≡ db
  unfolding process
  process_again w a db h = elim (Bool-cases w.commits) [
    | inr c ↦ rw c refl
    | inl c ↦ rw (c, h) refl
  ]

  consume-grows :
      (id : String) (d : Delivery) (w : Weather) (db : InboxDb S)
      → member id db.processed ≡ true
      → member id (consume py supported_major handles d w db).1.processed ≡ true
  unfolding consume
  consume-grows id d w db h = elim (Result-cases (accepted py supported_major d)) [
    | inr (f, e) ↦ rw (consume, e) (rw (recover-Same w d f db).0 h)
    | inl (a, e) ↦
        let r = process py supported_major handles w a db in
        rw (consume, e) (rw (finish-Same w d r.0 r.1).0 (process-grows id w a db h))
  ]

  consume_all-grows :
      (id : String) (ds : List (Delivery × Weather)) (db : InboxDb S)
      → member id db.processed ≡ true
      → member id (consume_all py supported_major handles ds db).processed ≡ true
  unfolding consume_all
  consume_all-grows id [] db h = h
  consume_all-grows id ((d, w) ∷ ds) db h =
      consume_all-grows id ds (consume py supported_major handles d w db).1
        (consume-grows id d w db h)

  consume_again :
      (d : Delivery) (w : Weather) (a : Accepted) (db : InboxDb S)
      → accepted py supported_major d ≡ ok a
      → member a.event_id db.processed ≡ true
      → (consume py supported_major handles d w db).1.state ≡ db.state
  unfolding consume
  consume_again d w a db e h =
      let r = process py supported_major handles w a db in
      rw (consume, e) ((finish-Same w d r.0 r.1).1 ∙ ap (λ t. t.state) (process_again w a db h))

  -- An event is handled once: after a message with it has been acknowledged, and whatever messages follow,
  -- another delivery of the event leaves the state of the handler as it is, however the delivery ends.
  pub handled_once :
      (d again : Delivery) (w w' : Weather) (a a' : Accepted) (db : InboxDb S)
      (ds : List (Delivery × Weather))
      → accepted py supported_major d ≡ ok a
      → (consume py supported_major handles d w db).0 ≡ acked
      → accepted py supported_major again ≡ ok a'
      → a'.event_id ≡ a.event_id
      → let later =
          consume_all py supported_major handles ds (consume py supported_major handles d w db).1 in
        (consume py supported_major handles again w' later).1.state ≡ later.state
  handled_once d again w w' a a' db ds e h e' same =
      let first = (consume py supported_major handles d w db).1 in
      let settled = settled_for_a_reason py supported_major handles d w db in
      let because : IsRecorded py supported_major handles (accepted py supported_major d)
          first.processed =
        rw h at settled in
      let recorded : member a.event_id first.processed ≡ true = rw e at because in
      let later = consume_all py supported_major handles ds first in
      consume_again again w' a' later e' (rw same (consume_all-grows a.event_id ds first recorded))
