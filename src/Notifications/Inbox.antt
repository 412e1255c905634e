-- ===== src/Notifications/Inbox.antt =====
-- services/event_consumer.py: what consume_forever does with a message.
use Prim.Native.Char.{code}
use myota_platform.Base.{
  true, false, none, some, ◌∷◌, [], ℕ, String, Bool, List, Option, ◌*◌, ◌==◌, if◌then◌else◌, ◌^◌,
  str_eq, ◌++◌, not, ◌-◌, map, member, leb, ◌&&◌, ltb, ◌||◌,
}
use myota_platform.Base.Raise.{ok, err, Result, ◌>>=◌, ◌>>◌, or_raise, guard}
use myota_platform.Json.{Fields, object, Json, get_value, end, text, truthy}
use myota_platform.Notifications.Redaction.{safe_diagnostic}
use myota_platform.Outbox.Routing.{as_text}

-- how a message or its handler fails: with ValueError, or with another exception
pub data Failure : Type 0 where
  invalid : Failure
  other : Failure

-- what becomes of a message: ack, nak with its delay, term, or nothing where its handling raises before
pub data Settlement : Type 0 where
  acked : Settlement
  retried : ℕ → Settlement
  terminated : Settlement
  unsettled : Settlement

pub record Delivery : Type 0 where
  pub subject : String
  -- json.loads(message.data), none where it raises
  pub data_ : Option Json
  pub has_headers : Bool
  pub delivered : ℕ
  pub sequence : ℕ

-- whether the transaction, what follows it up to the acknowledgement, the dead letter, the count of the dead
-- letters after it, message.nak and message.term go through
pub record Weather : Type 0 where
  pub commits : Bool
  pub acknowledges : Bool
  pub buries : Bool
  pub counts : Bool
  pub returns : Bool
  pub terminates : Bool

pub record DeadEvent : Type 0 where
  pub event_id : String
  pub event_type : String
  pub payload : Fields
  pub attempts : ℕ
  pub error : String
  pub sequence : ℕ
  pub subject : String
  pub resolved : Bool

pub record InboxDb (S : Type 0) : Type 0 where
  pub state : S
  -- the rows of consumer_processed_event and of consumer_checkpoint for the consumer
  pub processed : List String
  pub checkpoint : Option String
  pub dead_events : List DeadEvent

abbrev pub max_deliveries : ℕ
max_deliveries = 8

-- s without the prefix, none where s does not start with it
unfoldable pub drop_prefix : String → String → Option String
drop_prefix String.[] s = some s
drop_prefix (String.◌∷◌ c prefix) String.[] = none
drop_prefix (String.◌∷◌ c prefix) (String.◌∷◌ d s) =
    if code c == code d then drop_prefix prefix s else none

unfoldable pub remove_prefix : String → String → String
unfolding drop_prefix
remove_prefix prefix s = elim (drop_prefix prefix s) [ none ↦ s | some rest ↦ rest ]

-- s.rsplit(".v", 1)[-1], none where ".v" is not in s
unfoldable pub after_version : String → Option String
unfolding drop_prefix
after_version String.[] = none
after_version (String.◌∷◌ c s) =
    let rest = after_version s in
    elim rest [ some r ↦ some r | none ↦ drop_prefix ".v" (String.◌∷◌ c s) ]

-- the parameters: str(uuid.UUID(s)), int(s), str(v) of no text, str.lower and _fallback_event_id
pub record Formats : Type 0 where
  pub uuid : String → Option String
  pub int_of : String → Option ℕ
  pub shown : Json → String
  pub lower : String → String
  pub fallback_id : String → ℕ → String

pub record Accepted : Type 0 where
  pub event : Fields
  pub event_id : String
  pub event_type : String

-- the event of a message, or the empty dictionary
abbrev pub event_of : Delivery → Fields
event_of d = elim d.data_ [ some (object e) ↦ e | _ ↦ end ]

-- min(5 * 3 ** max(delivered - 1, 0), 300)
unfoldable pub retry_after : ℕ → ℕ
retry_after delivered = let delay = 5 * 3 ^ (delivered - 1) in if leb delay 300 then delay else 300

-- INSERT … ON CONFLICT (event_id) DO UPDATE
unfoldable pub bury : DeadEvent → List DeadEvent → List DeadEvent
bury l [] = l ∷ []
bury l (k ∷ ks) =
    if str_eq k.event_id l.event_id
    then record k {
      attempts = if leb k.attempts l.attempts then l.attempts else k.attempts;
      error = l.error;
      sequence = l.sequence;
      subject = l.subject;
    }
      ∷ ks
    else k ∷ bury l ks

abbrev pub is_permanent : Failure → Bool
is_permanent invalid = true
is_permanent other = false

module _ (py : Formats) (supported_major : ℕ) where
  abbrev pub text_or_shown : Json → String
  text_or_shown (text s) = s
  text_or_shown v = py.shown v

  -- str(event.get("eventType") or "unknown")
  abbrev pub type_of_event : Fields → String
  type_of_event e =
      let v = get_value "eventType" e in if truthy v then text_or_shown v else "unknown"

  abbrev pub major_of : String → Option ℕ
  major_of event_type = elim (after_version event_type) [ none ↦ some 0 | some s ↦ py.int_of s ]

  abbrev pub same_major : ℕ → Bool
  same_major n = n == supported_major

  -- the checks of an envelope
  unfoldable pub accepted : Delivery → Result Failure Accepted
  unfolding remove_prefix after_version
  accepted d = do
    decoded ← or_raise d.data_ invalid
    event ← (elim decoded [ object e ↦ ok e | _ ↦ err invalid ])
    let event_type = type_of_event event
    given ← or_raise (as_text (get_value "eventId" event)) invalid
    event_id ← or_raise (py.uuid given) invalid
    guard (str_eq event_type (remove_prefix "myota.events." d.subject)) invalid
    guard (truthy (get_value "correlationId" event) || d.has_headers) other
    major ← or_raise (major_of event_type) invalid
    guard (same_major major) invalid
    ok (record { event = event; event_id = event_id; event_type = event_type })

  abbrev pub resolve : String → DeadEvent → DeadEvent
  resolve id l = if str_eq l.event_id id then record l { resolved = true } else l

  -- the dead letter of a message
  unfoldable pub dead_event : Bool → Delivery → DeadEvent
  unfolding safe_diagnostic
  dead_event permanent d =
      let e = event_of d in
      record {
        event_id = elim (py.uuid (text_or_shown (get_value "eventId" e))) [
          | some id ↦ id
          | none ↦ py.fallback_id d.subject d.sequence
        ];
        event_type = elim d.data_ [ some (object o) ↦ type_of_event o | _ ↦ "unknown" ];
        payload = safe_diagnostic py.lower e;
        attempts = d.delivered;
        error =
            if permanent then "invalid_or_unsupported_envelope" else "delivery_attempts_exhausted";
        sequence = d.sequence;
        subject = d.subject;
        resolved = false;
      }

  module _ {S : Type 0} (handles : Fields → S → Result Failure S) where
    -- the rows that the transaction of a new event writes
    unfoldable pub committed : String → S → InboxDb S → InboxDb S
    committed id s db = record {
      state = s;
      processed = db.processed ++ id ∷ [];
      checkpoint = some id;
      dead_events = map (resolve id) db.dead_events;
    }

    -- the transaction of an accepted event: nothing is kept where it raises
    unfoldable pub process : Weather → Accepted → InboxDb S → Result Failure (Unit {0}) × InboxDb S
    unfolding committed
    process w a db =
        if not w.commits
        then (err other, db)
        else if member a.event_id db.processed
        then (ok tt, db)
        else elim (handles a.event db.state) [
          | err f ↦ (err f, db)
          | ok s ↦ (ok tt, committed a.event_id s db)
        ]

    -- except Exception as exc
    unfoldable pub recover : Weather → Delivery → Failure → InboxDb S → Settlement × InboxDb S
    unfolding retry_after dead_event bury
    recover w d f db =
        if not (is_permanent f) && ltb d.delivered max_deliveries
        then (if w.returns then retried (retry_after d.delivered) else unsettled, db)
        else if w.buries
        then (
          if w.counts && w.terminates then terminated else unsettled,
          record db { dead_events = bury (dead_event (is_permanent f) d) db.dead_events },
        )
        else (unsettled, db)

    -- what follows the transaction
    unfoldable pub finish :
        Weather → Delivery → Result Failure (Unit {0}) × InboxDb S → Settlement × InboxDb S
    unfolding recover
    finish w d (err f, db) = recover w d f db
    finish w d (ok u, db) = if w.acknowledges then (acked, db) else recover w d other db

    unfoldable pub consume : Delivery → Weather → InboxDb S → Settlement × InboxDb S
    unfolding accepted process finish recover
    consume d w db = elim (accepted d) [
      | err f ↦ recover w d f db
      | ok a ↦ finish w d (process w a db)
    ]

    unfoldable pub consume_all : List (Delivery × Weather) → InboxDb S → InboxDb S
    unfolding consume
    consume_all [] db = db
    consume_all ((d, w) ∷ ds) db = consume_all ds (consume d w db).1
