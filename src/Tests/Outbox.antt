-- ===== src/Tests/Outbox.antt =====
-- The theorems on the outbox at concrete rows.
use myota_platform.Outbox.Accounting.{AllAccounted, is_open}
use myota_platform.Jobs.Tables.{OutboxRow}
use myota_platform.Outbox.Relay.{
  retry_delay, mark_failed, claim, count_attempt, has_event_id, occurs_before, is_unset,
}
use myota_platform.Outbox.NoLoss.{history, no_event_lost}
use myota_platform.Base.{
  ◌≤◌, false, arith, ◌≡◌, ◌||◌, some, leb, true, [], find, All, refl, none, ◌+◌,
}
use myota_platform.Tests.Data.{
  command_of, event_id, sample_codec, relay_db, sample_limits, sample_uuid, troubles,
}
use myota_platform.Outbox.Registry.{catalog}
use myota_platform.Outbox.Backoff.{retry_delay_grows, mark_failed_settles}
use myota_platform.Json.{text}
use myota_platform.Outbox.Claiming.{is_claimable, claim_is_earliest}
use myota_platform.Jobs.Commands.{command_row}

no_event_lost_example : AllAccounted (
    history catalog sample_codec sample_limits
      (λ s. sample_uuid (text s))
      (record { db = relay_db; stored = [] })
      troubles)
unfolding command_row
no_event_lost_example =
    no_event_lost catalog sample_codec sample_limits (λ s. sample_uuid (text s)) troubles
      (record { db = relay_db; stored = [] }) (refl, tt)

claim_is_earliest_example :
    ((o : OutboxRow)
      → (claim 200 (λ k. false) relay_db).0 ≡ some o
      → (r : OutboxRow) × (o ≡ count_attempt r)
        × (is_claimable 200 (λ k. false) r ≡ true)
        × All
            (λ x. is_claimable 200 (λ k. false) x ≡ true → occurs_before x r ≡ false)
            relay_db.events)
    × ((claim 200 (λ k. false) relay_db).0 ≡ none
        → All (λ x. is_claimable 200 (λ k. false) x ≡ false) relay_db.events
          × ((claim 200 (λ k. false) relay_db).1 ≡ relay_db))
claim_is_earliest_example = claim_is_earliest 200 (λ k. false) relay_db

retry_delay_grows_example :
    (retry_delay 1200 3 ≤ retry_delay 1200 8)
    × (1000 ≤ retry_delay 1200 3)
    × (retry_delay 1200 3 ≤ 300000)
retry_delay_grows_example = retry_delay_grows 1200 3 8 (omega arith)

mark_failed_settles_example :
    let (dead, after) = mark_failed 12 500 900 (command_of event_id) "timeout" false relay_db in
    (false || leb 12 (command_of event_id).attempts ≡ true
      → (dead ≡ true)
        × (is_open event_id after.dead_letters ≡ true)
        × ((r' : OutboxRow) × (find (has_event_id event_id) after.events ≡ some r')
            × (is_unset r'.published_at ≡ false)))
    × (false || leb 12 (command_of event_id).attempts ≡ false
        → (dead ≡ false)
          × (after.dead_letters ≡ relay_db.dead_letters)
          × ((r' : OutboxRow) × (find (has_event_id event_id) after.events ≡ some r')
              × (r'.published_at ≡ (command_of event_id).published_at)
              × (500 + 1000000 ≤ r'.available_at)
              × (r'.available_at ≤ 500 + 300000000)))
unfolding command_row
mark_failed_settles_example =
    mark_failed_settles 12 500 900 (command_of event_id) (command_of event_id) "timeout" relay_db
      refl false
