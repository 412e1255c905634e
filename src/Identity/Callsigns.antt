-- ===== src/Identity/Callsigns.antt =====
-- services/identity.py: the callsigns of an account, from add_callsign to retire_callsign. The replay of
-- a request under its idempotency key is Store.once.
use myota_platform.Base.Effect.{◌>>=◌, ◌>>◌, modify, lift, state, check, pure}
use myota_platform.Base.{
  true, false, none, some, ◌∷◌, [], String, ℕ, Bool, List, ◌++◌, if◌then◌else◌, any, str_eq,
  update_row, not, ◌&&◌, Option, find_row, ◌||◌, update_where,
}
use myota_platform.Base.Raise.{ok, Result, or_raise, err}
use myota_platform.Identity.Store.{
  Callsign, Account, put_account, event, account, Handler, Evidence,
}
use myota_platform.Json.{Json, text, Fields, get_value, null, get_or, object, end}
use myota_platform.Identity.Roles.{Platform}
use myota_platform.Outbox.Routing.{is_text, as_text}
use myota_platform.Awards.Design.{ServiceError, stop_iteration, attribute_error, value_error}
use myota_platform.Identity.Auth.{auth, RequestContext}
use myota_platform.Base.Text.{strip, is_empty}
use myota_platform.Awards.Lifecycle.{require}

abbrev pub is_retired : Callsign → Bool
is_retired c = is_text c.status "RETIRED"

-- any(c["id"] == id and c["status"] != "RETIRED" for c in account["callsigns"])
abbrev pub is_active : String → List Callsign → Bool
is_active id cs = any (λ c. str_eq c.id id && not (is_retired c)) cs

abbrev pub is_taken : String → List Callsign → Bool
is_taken value cs = any (λ c. str_eq c.value value && not (is_retired c)) cs

abbrev pub is_primary : String → Account → Bool
is_primary id a = elim a.primary_callsign_id [ none ↦ false | some k ↦ str_eq k id ]

abbrev pub has_primary : Account → Bool
has_primary a = elim a.primary_callsign_id [ none ↦ false | some k ↦ true ]

-- callsign.update(...) in the list of the account
abbrev pub change_callsign : String → (Callsign → Callsign) → List Callsign → List Callsign
change_callsign id f cs = update_row (λ c. c.id) id (λ c. true) f cs

-- next(c for c in account["callsigns"] if c["id"] == id)
abbrev pub callsign_of : String → Account → Result ServiceError Callsign
callsign_of id a = or_raise (find_row (λ c. c.id) id a.callsigns) stop_iteration

-- what _add_callsign leaves of the account
unfoldable pub with_callsign : ℕ → Callsign → Account → Account
with_callsign now c a = record a {
  callsigns = a.callsigns ++ c ∷ [];
  primary_callsign_id =
      if not (has_primary a) && is_text a.participation_type "OPERATOR"
      then some c.id
      else a.primary_callsign_id;
  updated_at = now;
}

abbrev pub if_verified {ℓ} : {A : Type ℓ} → Json → A → A → A
if_verified status yes_ no_ = if is_text status "VERIFIED" then yes_ else no_

-- the primary callsign when a callsign is to be retired, with newPrimaryCallsignId
unfoldable pub replaced_primary : String → Json → Account → Result ServiceError (Option String)
replaced_primary id replacement a =
    if is_primary id a
    then (elim (as_text replacement) [
      | none ↦ err value_error
      | some r ↦
          if not (is_empty r) && is_active r a.callsigns then ok (some r) else err value_error
    ])
    else ok a.primary_callsign_id

abbrev pub retired : ℕ → Json → Callsign → Callsign
retired now valid_to c = record c { status = text "RETIRED"; valid_to = valid_to; updated_at = now }

-- what retire_callsign leaves of the account
unfoldable pub without_callsign : ℕ → String → Json → Option String → Account → Account
without_callsign now id valid_to primary a = record a {
  primary_callsign_id = primary;
  callsigns = change_callsign id (retired now valid_to) a.callsigns;
  updated_at = now;
}

module _ (py : Platform) where
  -- _add_callsign
  unfoldable pub append_callsign :
      ℕ → String → Account → Json → Json → Json → Json → Json → Handler Callsign
  unfolding with_callsign put_account event
  append_callsign now new_id a value status source valid_from valid_to = do
    given ← lift (or_raise (as_text value) attribute_error)
    let normalized = py.upper (strip given)
    check (not (is_empty normalized)) value_error
    check (not (is_taken normalized a.callsigns)) value_error
    let c : Callsign = record {
      id = new_id;
      value = normalized;
      status = status;
      source = source;
      verification_source = if_verified status source null;
      verified_at = if_verified status (some now) none;
      valid_from = valid_from;
      valid_to = valid_to;
      evidence_ids = [];
      created_at = now;
      updated_at = now;
    }
    modify (put_account (with_callsign now c a))
    modify (event "identity.callsign.added.v1" new_id)
    pure c

  unfoldable pub add_callsign : ℕ → RequestContext → String → String → Fields → Handler Callsign
  unfolding auth account append_callsign
  add_callsign now p new_id account_id body = do
    lift (require body ("callsign" ∷ []))
    auth py now p [] (some account_id)
    a ← account account_id
    append_callsign now new_id a (get_value "callsign" body)
        (get_or "status" (text "UNVERIFIED") body) (get_or "source" (text "self-asserted") body)
        (get_value "validFrom" body) (get_value "validTo" body)

  unfoldable pub set_primary : ℕ → RequestContext → String → Fields → Handler (Unit {0})
  unfolding auth account put_account event
  set_primary now p account_id body = do
    lift (require body ("callsignId" ∷ []))
    auth py now p [] (some account_id)
    a ← account account_id
    id ← lift (or_raise (as_text (get_value "callsignId" body)) value_error)
    check (is_active id a.callsigns) value_error
    modify (put_account (record a { primary_callsign_id = some id; updated_at = now }))
    modify (event "identity.callsign.primary-changed.v1" a.id)

  unfoldable pub add_evidence :
      ℕ → RequestContext → String → String → String → Fields → Handler Evidence
  unfolding auth account put_account event
  add_evidence now p new_id account_id callsign_id body = do
    lift (require body ("evidenceType" ∷ "source" ∷ []))
    auth py now p [] (some account_id)
    a ← account account_id
    c ← lift (callsign_of callsign_id a)
    let e : Evidence = record {
      id = new_id;
      callsign_id = c.id;
      account_id = a.id;
      evidence_type = get_value "evidenceType" body;
      source = get_value "source" body;
      checksum = get_value "checksum" body;
      metadata = get_or "metadata" (object end) body;
      submitted_at = now;
      status = "PENDING";
      reviewed_at = none;
    }
    modify (λ s. record s { evidence = s.evidence ++ e ∷ [] })
    modify (
        put_account (record a {
          callsigns =
              change_callsign c.id (λ d. record d { evidence_ids = d.evidence_ids ++ new_id ∷ [] })
                a.callsigns;
        }))
    modify (event "identity.callsign.evidence-submitted.v1" c.id)
    pure e

  abbrev pub verified : ℕ → Json → Callsign → Callsign
  verified now source c = record c {
    status = text "VERIFIED";
    verified_at = some now;
    verification_source = source;
    updated_at = now;
  }

  unfoldable pub verify_callsign :
      ℕ → RequestContext → String → String → Fields → Handler (Unit {0})
  unfolding auth account put_account event
  verify_callsign now p account_id callsign_id body = do
    auth py now p ("callsign.verify" ∷ []) none
    a ← account account_id
    c ← lift (callsign_of callsign_id a)
    store ← state
    check (not p.http || any (λ e. str_eq e.callsign_id c.id) store.evidence) value_error
    let source = get_or "source" (text "manual-review") body
    modify (
        put_account
          (record a { callsigns = change_callsign c.id (verified now source) a.callsigns }))
    modify (λ s. record s {
      evidence =
          update_where (λ e. str_eq e.callsign_id c.id)
            (λ e. record e { status = "ACCEPTED"; reviewed_at = some now }) s.evidence;
    })
    modify (event "identity.callsign.verified.v1" c.id)

  unfoldable pub retire_callsign :
      ℕ → RequestContext → String → String → Fields → Handler (Unit {0})
  unfolding auth account put_account event replaced_primary without_callsign
  retire_callsign now p account_id callsign_id body = do
    auth py now p [] (some account_id)
    a ← account account_id
    c ← lift (callsign_of callsign_id a)
    primary ← lift (replaced_primary c.id (get_value "newPrimaryCallsignId" body) a)
    let valid_to = get_or "validTo" (text (py.iso_of now)) body
    modify (put_account (without_callsign now c.id valid_to primary a))
    modify (event "identity.callsign.retired.v1" c.id)
