-- ===== src/Outbox/Accounting.antt =====
-- No event of services/outbox_worker.py is lost: a row leaves the pending state only when the broker
-- has its message or an unresolved dead letter keeps it.
use myota_platform.Base.{
  String, ◌≡◌, Bool, true, ◌&&◌, ◌||◌, List, [], ◌∷◌, ◌++◌, eq_iff, arith, any, All, member,
  update_where, ℕ, Bool-cases, str_eq, inl, false, inr, eq_refl, update_where-All_of, refl, leb,
}
use myota_platform.Jobs.Tables.{OutboxRow}
use myota_platform.Outbox.Relay.{
  DeadLetter, is_unset, unresolved, has_letter_id, upsert_letter, resolved_letter, RelayDb,
  mark_published, published_row, has_event_id, mark_failed, dead_row, delayed_row, letter_of,
}
use myota_platform.Outbox.Publish.{Relay}

-- an unresolved dead letter keeps the event
abbrev pub is_open : String → List DeadLetter → Bool
is_open k = any (λ d. has_letter_id k d && unresolved d)

-- A row is still pending, or the broker has stored its message, or an open dead letter keeps it.
abbrev pub accounted : List String → List DeadLetter → OutboxRow → Bool
accounted stored letters o =
    is_unset o.published_at || (member o.event_id stored || is_open o.event_id letters)

abbrev pub Accounted : List String → List DeadLetter → OutboxRow → Type 0
Accounted stored letters o = accounted stored letters o ≡ true

abbrev pub AllAccounted : Relay → Type 0
AllAccounted r = All (Accounted r.stored r.db.dead_letters) r.db.events

is_open-append :
    (k : String) (d : DeadLetter) (ds : List DeadLetter)
    → (is_open k ds ≡ true → is_open k (ds ++ d ∷ []) ≡ true)
      × (has_letter_id k d && unresolved d ≡ true → is_open k (ds ++ d ∷ []) ≡ true)
is_open-append k d [] = ground arith
is_open-append k d (x ∷ ds) = ground (arith, is_open-append k d ds)

-- replacing the letters of `j` by an open letter of `j` opens `j` and closes nothing else
is_open-replace :
    (k j : String) (d : DeadLetter) (ds : List DeadLetter)
    → d.event_id ≡ j
    → unresolved d ≡ true
    → (is_open k ds ≡ true → is_open k (update_where (has_letter_id j) (λ x. d) ds) ≡ true)
      × (any (has_letter_id j) ds ≡ true
          → is_open j (update_where (has_letter_id j) (λ x. d) ds) ≡ true)
unfolding update_where
is_open-replace k j d [] e u = ground arith
is_open-replace k j d (x ∷ ds) e u = ground (
  arith,
  is_open-replace k j d ds e u,
  eq_iff x.event_id k,
  eq_iff x.event_id j,
  eq_iff d.event_id k,
  eq_iff d.event_id j,
)

pub is_open-upsert :
    (k : String) (d : DeadLetter) (ds : List DeadLetter)
    → unresolved d ≡ true
    → (is_open k ds ≡ true → is_open k (upsert_letter d ds) ≡ true)
      × (is_open d.event_id (upsert_letter d ds) ≡ true)
unfolding upsert_letter
is_open-upsert k d ds u = elim (Bool-cases (any (has_letter_id d.event_id) ds)) [
  | inl e ↦ let keep = is_open-replace k d.event_id d ds refl u in (rw e keep.0, rw e (keep.1 e))
  | inr e ↦ (
    rw e (is_open-append k d ds).0,
    rw e ((is_open-append d.event_id d ds).1 (ground (arith, eq_refl d.event_id))),
  )
]

-- resolving the letters of `j` leaves those of another event as they are
is_open-resolve :
    (k j : String) (now : ℕ) (ds : List DeadLetter)
    → str_eq j k ≡ false
    → is_open k (update_where (λ d. has_letter_id j d && unresolved d) (resolved_letter now) ds)
      ≡ is_open k ds
unfolding update_where resolved_letter unresolved
is_open-resolve k j now [] h = refl
is_open-resolve k j now (x ∷ ds) h =
    ground
      (arith, is_open-resolve k j now ds h, eq_iff x.event_id k, eq_iff x.event_id j, eq_iff j k)

module _ (stored : List String) (now : ℕ) (k : String) (db : RelayDb)
    (h : All (Accounted stored db.dead_letters) db.events) where
  pub mark_published-Accounted :
      member k stored ≡ true
      → let after = mark_published now k db in
        All (Accounted stored after.dead_letters) after.events
  unfolding mark_published published_row
  mark_published-Accounted m =
      update_where-All_of (Accounted stored db.dead_letters) (Accounted stored _) (has_event_id k)
        (published_row now) db.events (λ o a e. ground (arith, eq_iff o.event_id k))
        (λ o a e. ground (
          arith,
          is_open-resolve o.event_id k now db.dead_letters,
          eq_iff o.event_id k,
          eq_iff k o.event_id,
        ))
        h

  pub mark_failed-Accounted :
      (max_attempts factor : ℕ) (o : OutboxRow) (error : String) (permanent : Bool)
      → let after = (mark_failed max_attempts now factor o error permanent db).1 in
        All (Accounted stored after.dead_letters) after.events
  unfolding mark_failed dead_row delayed_row
  mark_failed-Accounted max_attempts factor o error permanent =
      elim (Bool-cases (permanent || leb max_attempts o.attempts)) [
        | inl e ↦ rw e (
            update_where-All_of (Accounted stored db.dead_letters)
              (Accounted stored (upsert_letter (letter_of now o error) db.dead_letters))
              (has_event_id o.event_id) (dead_row now error) db.events (λ r a w. kept_open r a w)
              (λ r a w. ground (
                arith,
                is_open-upsert r.event_id (letter_of now o error) db.dead_letters open_letter,
              ))
              h)
        | inr e ↦ rw e (
            update_where-All_of (Accounted stored db.dead_letters)
              (Accounted stored db.dead_letters) (has_event_id o.event_id) _ db.events
              (λ r a w. ground arith) (λ r a w. a) h)
      ]
    where
      open_letter : unresolved (letter_of now o error) ≡ true
      open_letter = unfold unresolved letter_of in refl

      kept_open :
          (r : OutboxRow)
          → Accounted stored db.dead_letters r
          → has_event_id o.event_id r ≡ true
          → Accounted stored
              (upsert_letter (letter_of now o error) db.dead_letters)
              (dead_row now error r)
      kept_open r a w =
          let opened : is_open o.event_id (upsert_letter (letter_of now o error) db.dead_letters)
              ≡ true =
            unfold letter_of in
            (is_open-upsert o.event_id (letter_of now o error) db.dead_letters open_letter).1 in
          ground (arith, opened, eq_iff r.event_id o.event_id)
