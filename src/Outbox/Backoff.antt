-- ===== src/Outbox/Backoff.antt =====
-- What follows a failed publish: retry_delay and mark_failed of services/outbox_worker.py.
use native.Mathlib.Nat.{pow-le-pow_right, mul-le-mul_right}
use myota_platform.Base.{
  ℕ, ◌≤◌, ◌^◌, ◌≡◌, min, arith, max, ◌*◌, String, find, some, Bool, ◌||◌, leb, true, false, ◌+◌,
  find-update_where, refl,
}
use myota_platform.Outbox.Relay.{
  backoff, retry_delay, RelayDb, has_event_id, mark_failed, is_unset, letter_of, unresolved,
  dead_row, delayed_row,
}
use myota_platform.Jobs.Tables.{OutboxRow}
use myota_platform.Outbox.Accounting.{is_open, is_open-upsert}

pow_mono : (i j : ℕ) → i ≤ j → 2 ^ i ≤ 2 ^ j
pow_mono i j h = pow-le-pow_right {n = 2} (omega arith) h

-- The pauses double from two seconds to 256: the outer bound of 300 is never met.
backoff_bounds : (n : ℕ) → (2 ≤ backoff n) × (backoff n ≤ 256) × (backoff n ≡ 2 ^ min (max 1 n) 8)
unfolding backoff
backoff_bounds n =
    let low : 2 ^ 1 ≤ 2 ^ min (max 1 n) 8 = pow_mono 1 (min (max 1 n) 8) (omega arith) in
    let high : 2 ^ min (max 1 n) 8 ≤ 2 ^ 8 = pow_mono (min (max 1 n) 8) 8 (omega arith) in
    (omega arith, omega arith, omega arith)

-- After more attempts a relay never waits less, up to the jitter: with one random factor retry_delay
-- grows with the attempts; and for every factor it lies between one second and 300.
pub retry_delay_grows :
    (factor m n : ℕ)
    → m ≤ n
    → (retry_delay factor m ≤ retry_delay factor n)
      × (1000 ≤ retry_delay factor m)
      × (retry_delay factor m ≤ 300000)
unfolding retry_delay
retry_delay_grows factor m n h =
    let grows : backoff m * factor ≤ backoff n * factor =
      mul-le-mul_right factor (backoff-mono m n h) in
    (omega arith, omega arith, omega arith)
  where
    backoff-mono : (m n : ℕ) → m ≤ n → backoff m ≤ backoff n
    backoff-mono m n h =
        let e = (backoff_bounds m).2 in
        let f = (backoff_bounds n).2 in
        let p = pow_mono (min (max 1 m) 8) (min (max 1 n) 8) (omega arith) in omega arith

module _ (max_attempts now factor : ℕ) (o r : OutboxRow) (error : String) (db : RelayDb)
    (at_id : find (has_event_id o.event_id) db.events ≡ some r) where
  -- A failed publish is settled in one of two ways. If it was permanent or the claimed row has used its
  -- attempts, mark_failed reports a dead letter, an unresolved dead letter keeps the event, and the row
  -- is no longer pending. Otherwise it reports none, changes no dead letter, and the row stays as
  -- unpublished as it was and is due again between one second and 300 seconds from now.
  pub mark_failed_settles :
      (permanent : Bool)
      → let (dead, after) = mark_failed max_attempts now factor o error permanent db in
        (permanent || leb max_attempts o.attempts ≡ true
          → (dead ≡ true)
            × (is_open o.event_id after.dead_letters ≡ true)
            × ((r' : OutboxRow) × (find (has_event_id o.event_id) after.events ≡ some r')
                × (is_unset r'.published_at ≡ false)))
        × (permanent || leb max_attempts o.attempts ≡ false
            → (dead ≡ false)
              × (after.dead_letters ≡ db.dead_letters)
              × ((r' : OutboxRow) × (find (has_event_id o.event_id) after.events ≡ some r')
                  × (r'.published_at ≡ r.published_at)
                  × (now + 1000000 ≤ r'.available_at)
                  × (r'.available_at ≤ now + 300000000)))
  unfolding mark_failed retry_delay
  mark_failed_settles permanent = (
    λ e. rw e (
      refl,
      (is_open-upsert o.event_id (letter_of now o error) db.dead_letters
          (unfold unresolved letter_of in refl)).1,
      (
        dead_row now error r,
        find-update_where (has_event_id o.event_id) (dead_row now error)
            (λ x. unfold dead_row in refl) db.events at_id,
        (unfold dead_row in refl),
      ),
    ),
    λ e. rw e (
      refl,
      refl,
      (
        delayed_row now delay error r,
        find-update_where (has_event_id o.event_id) (delayed_row now delay error)
            (λ x. unfold delayed_row in refl) db.events at_id,
        (unfold delayed_row in refl),
        (unfold delayed_row in omega arith),
        (unfold delayed_row in omega arith),
      ),
    ),
  )
    where
      delay : ℕ
      delay = retry_delay factor o.attempts
