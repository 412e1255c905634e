-- ===== src/Outbox/Publish.antt =====
-- services/outbox_worker.py: relay_one. What the broker does with a publish is an argument; the log
-- holds the message identifiers (`Nats-Msg-Id`, the event identifiers) that it has stored.
use Prim.Native.Char.{code}
use myota_platform.Base.{
  ℕ, String, Bool, true, false, ◌||◌, Option, List, ◌∷◌, str_eq, ◌==◌, if◌then◌else◌, leb,
}
use myota_platform.Base.Raise.{Result, ok, err, ◌>>=◌, ◌>>◌, guard}
use myota_platform.Base.Text.{first, concat}
use myota_platform.Json.{Json, Fields}
use myota_platform.Jobs.Tables.{OutboxRow}
use myota_platform.Outbox.Registry.{Catalog}
use myota_platform.Outbox.Routing.{ContractError, too_large, event_subject, event_stream}
use myota_platform.Outbox.Envelope.{event_envelope}
use myota_platform.Outbox.Relay.{RelayDb, mark_published, mark_failed}

unfoldable pub is_break : ℕ → Bool
is_break c = c == 13 || (c == 10 || c == 9)

-- re.sub(r"[\r\n\t]+", " ", s); `inside` says that the run before was replaced
unfoldable pub collapse : Bool → String → String
collapse inside String.[] = String.[]
collapse inside (String.◌∷◌ c s) =
    let rest = collapse (is_break (code c)) s in
    if is_break (code c) then (if inside then rest else concat " " rest) else String.◌∷◌ c rest

-- _safe_error, of str(error)
unfoldable pub safe_error : String → String
unfolding collapse is_break
safe_error s = first 1000 (collapse false s)

-- The broker acknowledges with a stream, or publish raises: with the message stored (the
-- acknowledgement was lost) or not.
pub data Reply : Type 0 where
  acknowledged : (stream : String) → Reply
  ack_lost : (error : String) → Reply
  not_stored : (error : String) → Reply

pub record Relay : Type 0 where
  pub db : RelayDb
  pub stored : List String

-- What the relay cannot decide: the clock, the jitter, the reply, and whether the database takes the
-- write that settles the row.
pub record Turn : Type 0 where
  pub now : ℕ
  pub factor : ℕ
  pub reply : Reply
  pub writable : Bool

pub record Limits : Type 0 where
  pub max_attempts : ℕ
  pub max_message_bytes : ℕ

-- the part of the interface of JSON, UUIDs, times and messages that relay_one needs
pub record Codec : Type 0 where
  pub uuid : Json → Option String
  pub isoformat : ℕ → String
  pub size : Fields → ℕ
  pub message : ContractError → String

module _ (c : Catalog) (k : Codec) (l : Limits) where
  open k use {uuid, isoformat, size, message}
  open l use {max_attempts, max_message_bytes}

  -- the envelope, its subject and its size
  unfoldable pub prepare : OutboxRow → Result ContractError Fields
  prepare o = do
    envelope ← event_envelope c uuid isoformat o
    event_subject c envelope
    guard (leb (size envelope) max_message_bytes) too_large
    ok envelope

  -- mark_failed in a thread of its own: its failure is logged and leaves the row as it is
  unfoldable pub settle_failed : Turn → OutboxRow → String → Bool → RelayDb → RelayDb
  settle_failed t o error permanent db =
      if t.writable then (mark_failed max_attempts t.now t.factor o error permanent db).1 else db

  unfoldable pub settle_published : Turn → String → RelayDb → RelayDb
  settle_published t event_id db = if t.writable then mark_published t.now event_id db else db

  -- what the broker's reply leads to
  unfoldable pub after_publish : Turn → OutboxRow → Fields → Reply → Relay → Relay
  after_publish t o envelope (not_stored error) r = record r {
    db = settle_failed t o (safe_error error) false r.db;
  }
  after_publish t o envelope (ack_lost error) r = record {
    db = settle_failed t o (safe_error error) false r.db;
    stored = o.event_id ∷ r.stored;
  }
  after_publish t o envelope (acknowledged stream) r =
      if str_eq stream (event_stream c envelope)
      then record { db = settle_published t o.event_id r.db; stored = o.event_id ∷ r.stored }
      else record {
        db = settle_failed t o "JetStream acknowledged an unexpected stream" false r.db;
        stored = o.event_id ∷ r.stored;
      }

  unfoldable pub after_prepare : Turn → OutboxRow → Result ContractError Fields → Relay → Relay
  after_prepare t o (err e) r = record r {
    db = settle_failed t o (safe_error (message e)) true r.db;
  }
  after_prepare t o (ok envelope) r = after_publish t o envelope t.reply r

  unfoldable pub relay_one : Turn → OutboxRow → Relay → Relay
  relay_one t o r = after_prepare t o (prepare o) r
