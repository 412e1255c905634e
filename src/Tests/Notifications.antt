-- ===== src/Tests/Notifications.antt =====
-- The theorems on notifications at concrete messages.
use myota_platform.Base.{
  refl, true, false, none, some, ◌∷◌, [], List, String, if◌then◌else◌, ◌≡◌, str_eq,
}
use myota_platform.Base.Raise.{ok, Result}
use myota_platform.Notifications.Inbox.{
  Formats, Delivery, Accepted, Weather, InboxDb, accepted, consume, consume_all, acked, Failure,
}
use myota_platform.Json.{Fields, Json, field, object, text, end, number, get_value}
use myota_platform.Notifications.Redaction.{safe_diagnostic}
use myota_platform.Notifications.Deliveries.{IsJustified, settled_for_a_reason}
use myota_platform.Base.Text.{is_empty}
use myota_platform.Notifications.HandledOnce.{handled_once}
use myota_platform.Notifications.Diagnostics.{AlikeFields, safe_diagnostic_hides}

abbrev sample_formats : Formats
sample_formats = record {
  uuid = λ s. if is_empty s then none else some s;
  int_of = λ s. if str_eq s "1" then some 1 else none;
  shown = λ v. "None";
  lower = λ s. s;
  fallback_id = λ s n. "fallback";
}

-- the handler keeps the identifiers of the events that it was given
abbrev keeps_ids : Fields → List Json → Result Failure (List Json)
keeps_ids e s = ok (get_value "eventId" e ∷ s)

abbrev account_created : Fields
account_created =
    field "eventType" (text "identity.account.created.v1")
      (field "eventId" (text "e1") (field "correlationId" (text "k1") end))

abbrev sample_delivery : Delivery
sample_delivery = record {
  subject = "myota.events.identity.account.created.v1";
  data_ = some (object account_created);
  has_headers = false;
  delivered = 1;
  sequence = 17;
}

abbrev sample_accepted : Accepted
sample_accepted = record {
  event = account_created;
  event_id = "e1";
  event_type = "identity.account.created.v1";
}

abbrev fair : Weather
fair = record {
  commits = true;
  acknowledges = true;
  buries = true;
  counts = true;
  returns = true;
  terminates = true;
}

-- the acknowledgement and the giving back are lost
abbrev unheard : Weather
unheard = record {
  commits = true;
  acknowledges = false;
  buries = true;
  counts = true;
  returns = false;
  terminates = true;
}

abbrev empty_inbox : InboxDb (List Json)
empty_inbox = record { state = []; processed = []; checkpoint = none; dead_events = [] }

sample_is_accepted : accepted sample_formats 1 sample_delivery ≡ ok sample_accepted
unfolding accepted get_value
sample_is_accepted = refl

sample_is_acked : (consume sample_formats 1 keeps_ids sample_delivery fair empty_inbox).0 ≡ acked
unfolding consume get_value
sample_is_acked = refl

settled_for_a_reason_example :
    let r = consume sample_formats 1 keeps_ids sample_delivery unheard empty_inbox in
    IsJustified sample_formats 1 keeps_ids sample_delivery unheard r.1 r.0
settled_for_a_reason_example =
    settled_for_a_reason sample_formats 1 keeps_ids sample_delivery unheard empty_inbox

abbrev between : List (Delivery × Weather)
between = (record sample_delivery { data_ = none }, fair) ∷ []

handled_once_example :
    let later =
      consume_all sample_formats 1 keeps_ids between
        (consume sample_formats 1 keeps_ids sample_delivery fair empty_inbox).1 in
    (consume sample_formats 1 keeps_ids sample_delivery unheard later).1.state ≡ later.state
handled_once_example =
    handled_once sample_formats 1 keeps_ids sample_delivery sample_delivery fair unheard
      sample_accepted sample_accepted empty_inbox between sample_is_accepted sample_is_acked
      sample_is_accepted refl

abbrev login_failed : String → Fields
login_failed email =
    field "payload" (object (field "email" (text email) (field "n" (number 3) end))) end

safe_diagnostic_hides_example :
    (safe_diagnostic (λ s. s) (login_failed "a") ≡ safe_diagnostic (λ s. s) (login_failed "b")
      → AlikeFields (λ s. s) (login_failed "a") (login_failed "b"))
    × (AlikeFields (λ s. s) (login_failed "a") (login_failed "b")
        → safe_diagnostic (λ s. s) (login_failed "a") ≡ safe_diagnostic (λ s. s) (login_failed "b"))
safe_diagnostic_hides_example = safe_diagnostic_hides (λ s. s) (login_failed "a") (login_failed "b")
