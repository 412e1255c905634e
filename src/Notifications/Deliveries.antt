-- ===== src/Notifications/Deliveries.antt =====
-- What consume_forever of services/event_consumer.py makes of the deliveries of an event.
use myota_platform.Notifications.Inbox.{
  Settlement, acked, retried, terminated, unsettled, is_permanent, finish, consume, Accepted,
  process, other, committed,
}
use myota_platform.Base.{
  refl, true, false, arith, ◌∷◌, [], ℕ, String, List, any, eq_refl, member, str_eq, ◌++◌, ◌≡◌, ◌<◌,
  ◌≤◌, inl, inr, Bool-cases, not, ◌&&◌, ltb, ◌^◌, ◌-◌, suc, zero, ◌⊎◌,
}
use myota_platform.Base.Raise.{ok, err, Result, Result-cases}
use myota_platform.Notifications.Inbox.{
  Formats, Failure, Delivery, bury, recover, Weather, DeadEvent, dead_event, InboxDb, retry_after,
  Settlement, accepted, retried, max_deliveries, acked, terminated,
}
use myota_platform.Json.{Fields}

power_positive : (n : ℕ) → 1 ≤ 3 ^ n
power_positive zero = omega arith
power_positive (suc n) = let rest = power_positive n in omega arith

retry_after_bounds : (n : ℕ) → (5 ≤ retry_after n) × (retry_after n ≤ 300)
unfolding retry_after
retry_after_bounds n = let p = power_positive (n - 1) in ground arith

module _ (py : Formats) (supported_major : ℕ) {S : Type 0}
    (handles : Fields → S → Result Failure S) where
  -- the dead letters hold one of the identifier
  abbrev pub IsBuried : String → List DeadEvent → Type 0
  IsBuried id ls = any (λ l. str_eq l.event_id id) ls ≡ true

  -- the event of an accepted message is among the processed ones
  abbrev pub IsRecorded : Result Failure Accepted → List String → Type 0
  IsRecorded (ok a) ids = member a.event_id ids ≡ true
  IsRecorded (err f) ids = ⊥

  -- a message is settled for a reason
  abbrev pub IsJustified : Delivery → Weather → InboxDb S → Settlement → Type 0
  IsJustified d w db acked = IsRecorded (accepted py supported_major d) db.processed
  IsJustified d w db (retried n) = (d.delivered < max_deliveries) × ((5 ≤ n) × (n ≤ 300))
  IsJustified d w db terminated =
      IsBuried (dead_event py supported_major true d).event_id db.dead_events
  IsJustified d w db unsettled =
      ((d.delivered < max_deliveries) × (w.returns ≡ false))
      ⊎ (((w.buries && (w.counts && w.terminates)) ≡ false)
          × (w.buries ≡ true
              → IsBuried (dead_event py supported_major true d).event_id db.dead_events))

  bury-IsBuried : (l : DeadEvent) (ls : List DeadEvent) → IsBuried l.event_id (bury l ls)
  unfolding bury
  bury-IsBuried l [] = rw (eq_refl l.event_id) refl
  bury-IsBuried l (k ∷ ks) = ground (arith, bury-IsBuried l ks)

  recover-IsJustified :
      (w : Weather) (d : Delivery) (f : Failure) (db : InboxDb S)
      → IsJustified d w
          (recover py supported_major handles w d f db).1
          (recover py supported_major handles w d f db).0
  unfolding recover dead_event retry_after
  recover-IsJustified w d f db =
      elim (Bool-cases (not (is_permanent f) && ltb d.delivered max_deliveries)) [
        | inl b ↦ elim (Bool-cases w.returns) [
          | inl y ↦ simp (b, y) (ground arith, retry_after_bounds d.delivered)
          | inr y ↦ simp (b, y) (inl (ground arith, refl))
        ]
        | inr b ↦ elim (Bool-cases w.buries) [
          | inr y ↦ simp (b, y) (inr (ground arith, λ h. ground arith))
          | inl y ↦ elim (Bool-cases (w.counts && w.terminates)) [
            | inl c ↦ simp (b, y, c) (is_stored f)
            | inr c ↦ simp (b, y, c) (inr (ground arith, λ h. is_stored f))
          ]
        ]
      ]
    where
      is_stored :
          (f : Failure)
          → IsBuried
              (dead_event py supported_major true d).event_id
              (bury (dead_event py supported_major (is_permanent f) d) db.dead_events)
      is_stored f = bury-IsBuried (dead_event py supported_major (is_permanent f) d) db.dead_events

  member-append : (id : String) (ids : List String) → member id (ids ++ id ∷ []) ≡ true
  member-append id [] = rw (eq_refl id) refl
  member-append id (k ∷ ks) = ground (arith, member-append id ks)

  finish-IsJustified :
      (w : Weather) (d : Delivery) (a : Accepted) (r : Result Failure (Unit {0})) (db : InboxDb S)
      → accepted py supported_major d ≡ ok a
      → (r ≡ ok tt → member a.event_id db.processed ≡ true)
      → IsJustified d w
          (finish py supported_major handles w d (r, db)).1
          (finish py supported_major handles w d (r, db)).0
  unfolding finish
  finish-IsJustified w d a (err f) db e m = recover-IsJustified w d f db
  finish-IsJustified w d a (ok u) db e m = elim (Bool-cases w.acknowledges) [
    | inl y ↦ rw y (rw e (m refl))
    | inr y ↦ rw y (recover-IsJustified w d other db)
  ]

  process-recorded :
      (w : Weather) (a : Accepted) (db : InboxDb S)
      → (process py supported_major handles w a db).0 ≡ ok tt
      → member a.event_id (process py supported_major handles w a db).1.processed ≡ true
  unfolding process committed
  process-recorded w a db h = elim (Bool-cases w.commits) [
    | inr c ↦ let no_ : (process py supported_major handles w a db).0 ≡ err other = rw c refl in cc
    | inl c ↦ elim (Bool-cases (member a.event_id db.processed)) [
      | inl m ↦ rw (c, m) m
      | inr m ↦ elim (Result-cases (handles a.event db.state)) [
        | inr (f, e) ↦
            let no_ : (process py supported_major handles w a db).0 ≡ err f = rw (c, m, e) refl in
            cc
        | inl (s, e) ↦ rw (c, m, e) (member-append a.event_id db.processed)
      ]
    ]
  ]

  -- Every message is settled for a reason: it is acknowledged only where its event is recorded as processed,
  -- terminated only where its dead letter is stored, and given back only while deliveries are left, with a
  -- delay of 5 to 300 seconds; it stays unsettled only where giving it back raised while deliveries were left,
  -- or storing its dead letter, counting the dead letters after it or terminating it raised, and then the dead
  -- letter is stored all the same if storing it did not raise.
  pub settled_for_a_reason :
      (d : Delivery) (w : Weather) (db : InboxDb S)
      → IsJustified d w
          (consume py supported_major handles d w db).1
          (consume py supported_major handles d w db).0
  unfolding consume process committed
  settled_for_a_reason d w db = elim (Result-cases (accepted py supported_major d)) [
    | inr (f, e) ↦ rw (consume, e) (recover-IsJustified w d f db)
    | inl (a, e) ↦
        rw (consume, e)
          (finish-IsJustified w d a (process py supported_major handles w a db).0
            (process py supported_major handles w a db).1 e (process-recorded w a db))
  ]
