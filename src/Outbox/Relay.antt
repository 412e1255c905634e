-- ===== src/Outbox/Relay.antt =====
-- services/outbox_worker.py: claiming, publishing and settling the rows of outbox_event; and the
-- redrive of services/outbox_admin.py. The clock is in microseconds. `serialized env` is the size in
-- bytes of the envelope as JSON. The random factor of retry_delay is an argument, in thousandths.
use myota_platform.Base.{
  ℕ, ◌+◌, ◌*◌, ◌^◌, min, max, String, Bool, true, false, ◌&&◌, ◌||◌, not, Option, none, some, List,
  [], ◌∷◌, ◌++◌, ltb, leb, ◌==◌, if◌then◌else◌, keep, str_eq, update_where, any, find,
}
use Prim.Native.String.{compare}
use package.text.Mathlib.Text.{is_lt}
use myota_platform.Base.Raise.{Result, ok, ◌>>=◌, ◌>>◌, guard, or_raise}
use myota_platform.Base.Text.{strip, is_empty, text_length, concat}
use myota_platform.Json.{Json}
use myota_platform.Jobs.Tables.{OutboxRow}

-- a row of dead_letter_event
pub record DeadLetter : Type 0 where
  pub event_id : String
  pub event_type : String
  pub payload : Json
  pub attempts : ℕ
  pub error : String
  pub dead_lettered_at : ℕ
  pub resolved_at : Option ℕ

-- a row of outbox_redrive_audit
pub record OutboxAudit : Type 0 where
  pub event_id : String
  pub actor : String
  pub reason : String
  pub previous_attempts : ℕ
  pub previous_error : String

pub record RelayDb : Type 0 where
  pub events : List OutboxRow
  pub dead_letters : List DeadLetter
  pub audits : List OutboxAudit

-- event_id = k
abbrev pub has_event_id : String → OutboxRow → Bool
has_event_id k o = str_eq o.event_id k

abbrev pub has_letter_id : String → DeadLetter → Bool
has_letter_id k d = str_eq d.event_id k

abbrev pub is_unset : Option ℕ → Bool
is_unset none = true
is_unset (some t) = false

-- published_at IS NULL AND available_at <= now()
unfoldable pub pending : ℕ → OutboxRow → Bool
pending now o = is_unset o.published_at && leb o.available_at now

-- ORDER BY occurred_at, event_id
unfoldable pub occurs_before : OutboxRow → OutboxRow → Bool
occurs_before a b =
    ltb a.occurred_at b.occurred_at
    || (a.occurred_at == b.occurred_at && is_lt (compare a.event_id b.event_id))

unfoldable pub earliest : List OutboxRow → Option OutboxRow
earliest [] = none
earliest (o ∷ os) = elim (earliest os) [
  | none ↦ some o
  | some best ↦ some (if occurs_before best o then best else o)
]

abbrev pub count_attempt : OutboxRow → OutboxRow
count_attempt o = record o { attempts = o.attempts + 1 }

abbrev pub claim_found : Option OutboxRow → RelayDb → Option OutboxRow × RelayDb
claim_found none db = (none, db)
claim_found (some o) db = (
  some (count_attempt o),
  record db { events = update_where (has_event_id o.event_id) count_attempt db.events },
)

-- FOR UPDATE SKIP LOCKED: the rows that no other relay has locked
unfoldable pub claimable : ℕ → (String → Bool) → RelayDb → List OutboxRow
claimable now locked db = keep (λ o. pending now o && not (locked o.event_id)) db.events

unfoldable pub claim : ℕ → (String → Bool) → RelayDb → Option OutboxRow × RelayDb
unfolding claimable
claim now locked db = claim_found (earliest (claimable now locked db)) db

unfoldable pub published_row : ℕ → OutboxRow → OutboxRow
published_row now o = record o { published_at = some now; last_error = none }

unfoldable pub resolved_letter : ℕ → DeadLetter → DeadLetter
resolved_letter now d = record d { resolved_at = some now }

unfoldable pub unresolved : DeadLetter → Bool
unresolved d = is_unset d.resolved_at

unfoldable pub mark_published : ℕ → String → RelayDb → RelayDb
mark_published now event_id db = record db {
  events = update_where (has_event_id event_id) (published_row now) db.events;
  dead_letters =
      update_where (λ d. has_letter_id event_id d && unresolved d) (resolved_letter now)
        db.dead_letters;
}

-- min(300, 2 ** min(max(1, attempts), 8))
unfoldable pub backoff : ℕ → ℕ
backoff attempts = min 300 (2 ^ min (max 1 attempts) 8)

-- retry_delay in thousandths of a second, for a random factor of 800 to 1200 thousandths
unfoldable pub retry_delay : ℕ → ℕ → ℕ
unfolding backoff
retry_delay factor attempts = min 300000 (max 1000 (backoff attempts * factor))

-- INSERT INTO dead_letter_event … ON CONFLICT (event_id) DO UPDATE SET …
unfoldable pub upsert_letter : DeadLetter → List DeadLetter → List DeadLetter
upsert_letter d ds =
    if any (has_letter_id d.event_id) ds
    then update_where (has_letter_id d.event_id) (λ x. d) ds
    else ds ++ d ∷ []

unfoldable pub letter_of : ℕ → OutboxRow → String → DeadLetter
letter_of now o error = record {
  event_id = o.event_id;
  event_type = o.event_type;
  payload = o.payload;
  attempts = o.attempts;
  error = error;
  dead_lettered_at = now;
  resolved_at = none;
}

unfoldable pub dead_row : ℕ → String → OutboxRow → OutboxRow
dead_row now error o = record o {
  published_at = some now;
  last_error = some (concat "dead-lettered: " error);
}

unfoldable pub delayed_row : ℕ → ℕ → String → OutboxRow → OutboxRow
delayed_row now delay error o = record o {
  available_at = now + delay * 1000;
  last_error = some error;
}

-- mark_failed of a claimed row; MAX_ATTEMPTS is a parameter
unfoldable pub mark_failed : ℕ → ℕ → ℕ → OutboxRow → String → Bool → RelayDb → Bool × RelayDb
unfolding letter_of
mark_failed max_attempts now factor o error permanent db =
    if permanent || leb max_attempts o.attempts
    then (
      true,
      record db {
        events = update_where (has_event_id o.event_id) (dead_row now error) db.events;
        dead_letters = upsert_letter (letter_of now o error) db.dead_letters;
      },
    )
    else (
      false,
      record db {
        events =
            update_where (has_event_id o.event_id)
              (delayed_row now (retry_delay factor o.attempts) error) db.events;
      },
    )

-- outbox_admin.py
pub data RedriveError : Type 0 where
  event_id_malformed bad_actor bad_reason no_unresolved_letter not_completed : RedriveError

-- the columns of the JOIN … WHERE d.resolved_at IS NULL
unfoldable pub redrivable : String → RelayDb → Option (OutboxRow × DeadLetter)
redrivable event_id db = elim (find (has_event_id event_id) db.events) [
  | none ↦ none
  | some o ↦ elim (find (λ d. has_letter_id event_id d && unresolved d) db.dead_letters) [
    | none ↦ none
    | some d ↦ some (o, d)
  ]
]

unfoldable pub redriven_row : ℕ → OutboxRow → OutboxRow
redriven_row now o = record o {
  published_at = none;
  available_at = now;
  attempts = 0;
  last_error = none;
}

abbrev pub within : ℕ → String → Bool
within limit t = not (is_empty t) && not (ltb limit (text_length t))

module _ (uuid : String → Option String) where
  unfoldable pub redrive : ℕ → String → String → String → RelayDb → Result RedriveError RelayDb
  redrive now event_id actor reason db = do
    id ← or_raise (uuid event_id) event_id_malformed
    guard (within 120 (strip actor)) bad_actor
    guard (within 500 (strip reason)) bad_reason
    (o, d) ← or_raise (redrivable id db) no_unresolved_letter
    guard (not (is_unset o.published_at)) not_completed
    ok (record db {
      audits =
          db.audits
          ++ record {
            event_id = id;
            actor = strip actor;
            reason = strip reason;
            previous_attempts = o.attempts;
            previous_error = d.error;
          }
            ∷ [];
      events = update_where (has_event_id id) (redriven_row now) db.events;
    })
