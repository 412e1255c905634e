-- ===== src/Outbox/NoLoss.antt =====
-- Any sequence of what happens to the outbox table: services write rows, relays of
-- services/outbox_worker.py claim and publish them, operators redrive them (services/outbox_admin.py).
use myota_platform.Base.{
  ℕ, String, ◌≡◌, refl, Bool, true, false, Option, none, some, List, [], ◌∷◌, ◌++◌, arith, All,
  All-append, member, Option-cases, Bool-cases, inl, inr, update_where-All_of, All-map, str_eq,
  eq_refl, ◌⊎◌, update_where,
}
use myota_platform.Base.Raise.{Result, ok, err}
use myota_platform.Jobs.Tables.{OutboxRow}
use myota_platform.Json.{Fields}
use myota_platform.Outbox.Registry.{Catalog}
use myota_platform.Outbox.Routing.{ContractError, event_stream}
use myota_platform.Outbox.Relay.{
  RelayDb, claim, redrive, count_attempt, has_event_id, earliest, redriven_row, RedriveError,
  claim_found, claimable,
}
use myota_platform.Outbox.Publish.{
  Codec, Limits, Turn, Reply, acknowledged, ack_lost, not_stored, Relay, prepare, relay_one,
  settle_failed, settle_published, safe_error, after_publish, after_prepare,
}
use myota_platform.Outbox.Accounting.{
  Accounted, AllAccounted, mark_published-Accounted, mark_failed-Accounted,
}

pub data Happening : Type 0 where
  -- a service commits an unpublished row
  written : (o : OutboxRow) → Happening
  claimed : (now : ℕ) (locked : String → Bool) → Happening
  relayed : Turn → (o : OutboxRow) → Happening
  redriven : (now : ℕ) (event_id actor reason : String) → Happening

abbrev pub settled : RelayDb → Result RedriveError RelayDb → RelayDb
settled db (ok db') = db'
settled db (err e) = db

module _ (c : Catalog) (k : Codec) (l : Limits) (uuid : String → Option String) where
  unfoldable pub happen : Relay → Happening → Relay
  happen r (written o) = record r {
    db = record r.db { events = r.db.events ++ record o { published_at = none } ∷ [] };
  }
  happen r (claimed now locked) = record r { db = (claim now locked r.db).1 }
  happen r (relayed t o) = relay_one c k l t o r
  happen r (redriven now event_id actor reason) = record r {
    db = settled r.db (redrive uuid now event_id actor reason r.db);
  }

  unfoldable pub history : Relay → List Happening → Relay
  history r [] = r
  history r (x ∷ xs) = history (happen r x) xs

stored_more :
    (x : String) (r : Relay)
    → AllAccounted r
    → All (Accounted (x ∷ r.stored) r.db.dead_letters) r.db.events
stored_more x r h = All-map _ _ r.db.events (λ o a. ground arith) h

claim_found-Accounted :
    (found : Option OutboxRow) (r : Relay)
    → AllAccounted r
    → AllAccounted (record r { db = (claim_found found r.db).1 })
claim_found-Accounted none r h = h
claim_found-Accounted (some o) r h =
    update_where-All_of (Accounted r.stored r.db.dead_letters)
      (Accounted r.stored r.db.dead_letters) (has_event_id o.event_id) count_attempt r.db.events
      (λ x a w. a) (λ x a w. a) h

claim-Accounted :
    (now : ℕ) (locked : String → Bool) (r : Relay)
    → AllAccounted r
    → AllAccounted (record r { db = (claim now locked r.db).1 })
unfolding claim
claim-Accounted now locked r h = claim_found-Accounted (earliest (claimable now locked r.db)) r h

db-redrive :
    (uuid : String → Option String) (now : ℕ) (event_id actor reason id : String) (db : RelayDb)
    → uuid event_id ≡ some id
    → let after = settled db (redrive uuid now event_id actor reason db) in
      (after.dead_letters ≡ db.dead_letters)
      × ((after.events ≡ db.events)
          ⊎ (after.events ≡ update_where (has_event_id id) (redriven_row now) db.events))
unfolding redrive
db-redrive uuid now event_id actor reason id db e = ground arith

bad_id-redrive :
    (uuid : String → Option String) (now : ℕ) (event_id actor reason : String) (db : RelayDb)
    → uuid event_id ≡ none
    → settled db (redrive uuid now event_id actor reason db) ≡ db
unfolding redrive
bad_id-redrive uuid now event_id actor reason db e = ground arith

module _ (c : Catalog) (k : Codec) (l : Limits) where
  settle_failed-Accounted :
      (stored : List String) (t : Turn) (o : OutboxRow) (error : String) (permanent : Bool)
      (db : RelayDb)
      → AllAccounted (record { db = db; stored = stored })
      → AllAccounted (record { db = settle_failed c k l t o error permanent db; stored = stored })
  unfolding settle_failed
  settle_failed-Accounted stored t o error permanent db h = elim (Bool-cases t.writable) [
    | inl e ↦
        rw e (mark_failed-Accounted stored t.now "" db h l.max_attempts t.factor o error permanent)
    | inr e ↦ rw e h
  ]

  settle_published-Accounted :
      (stored : List String) (t : Turn) (event_id : String) (db : RelayDb)
      → AllAccounted (record { db = db; stored = stored })
      → member event_id stored ≡ true
      → AllAccounted (record { db = settle_published c k l t event_id db; stored = stored })
  unfolding settle_published
  settle_published-Accounted stored t event_id db h m = elim (Bool-cases t.writable) [
    | inl e ↦ rw e (mark_published-Accounted stored t.now event_id db h m)
    | inr e ↦ rw e h
  ]

  after_publish-Accounted :
      (t : Turn) (o : OutboxRow) (envelope : Fields) (reply : Reply) (r : Relay)
      → AllAccounted r
      → AllAccounted (after_publish c k l t o envelope reply r)
  unfolding after_publish
  after_publish-Accounted t o envelope (not_stored error) r h =
      settle_failed-Accounted r.stored t o (safe_error error) false r.db h
  after_publish-Accounted t o envelope (ack_lost error) r h =
      settle_failed-Accounted (o.event_id ∷ r.stored) t o (safe_error error) false r.db
        (stored_more o.event_id r h)
  after_publish-Accounted t o envelope (acknowledged stream) r h =
      let more = stored_more o.event_id r h in
      elim (Bool-cases (str_eq stream (event_stream c envelope))) [
        | inl e ↦ rw e (
            settle_published-Accounted (o.event_id ∷ r.stored) t o.event_id r.db more
              (ground (arith, eq_refl o.event_id)))
        | inr e ↦ rw e (
            settle_failed-Accounted (o.event_id ∷ r.stored) t o
              "JetStream acknowledged an unexpected stream" false r.db more)
      ]

  after_prepare-Accounted :
      (t : Turn) (o : OutboxRow) (p : Result ContractError Fields) (r : Relay)
      → AllAccounted r
      → AllAccounted (after_prepare c k l t o p r)
  unfolding after_prepare
  after_prepare-Accounted t o (err e) r h = settle_failed-Accounted r.stored t o _ true r.db h
  after_prepare-Accounted t o (ok envelope) r h = after_publish-Accounted t o envelope t.reply r h

  module _ (uuid : String → Option String) where
    redrive-Accounted :
        (now : ℕ) (event_id actor reason : String) (r : Relay)
        → AllAccounted r
        → AllAccounted
            (record r { db = settled r.db (redrive uuid now event_id actor reason r.db) })
    redrive-Accounted now event_id actor reason r h = elim (Option-cases (uuid event_id)) [
      | inl e ↦ rw (bad_id-redrive uuid now event_id actor reason r.db e) h
      | inr (id, e) ↦
          let (letters, events) = db-redrive uuid now event_id actor reason id r.db e in
          elim events [
            | inl same ↦ rw (letters, same) h
            | inr moved ↦
                rw (letters, moved)
                  (update_where-All_of (Accounted r.stored r.db.dead_letters)
                    (Accounted r.stored r.db.dead_letters) (has_event_id id) (redriven_row now)
                    r.db.events (λ x a w. unfold redriven_row in refl) (λ x a w. a) h)
          ]
    ]

    pub happen-Accounted :
        (x : Happening) (r : Relay) → AllAccounted r → AllAccounted (happen c k l uuid r x)
    unfolding happen
    happen-Accounted (written o) r h =
        All-append (Accounted r.stored r.db.dead_letters) r.db.events _ h (refl, tt)
    happen-Accounted (claimed now locked) r h = claim-Accounted now locked r h
    happen-Accounted (relayed t o) r h =
        unfold relay_one in after_prepare-Accounted t o (prepare c k l o) r h
    happen-Accounted (redriven now event_id actor reason) r h =
        redrive-Accounted now event_id actor reason r h

    -- No event is lost: whatever services write, whatever relays claim, publish, retry or dead-letter
    -- (with any replies of the broker, lost acknowledgements and failing database writes included) and
    -- whatever operators redrive, every row of outbox_event is still pending, or its message is stored
    -- by the broker, or an unresolved dead letter keeps it, if that held of every row at first.
    pub no_event_lost :
        (xs : List Happening) (r : Relay) → AllAccounted r → AllAccounted (history c k l uuid r xs)
    unfolding history
    no_event_lost [] r h = h
    no_event_lost (x ∷ xs) r h = no_event_lost xs (happen c k l uuid r x) (happen-Accounted x r h)
