-- ===== src/Outbox/Claiming.antt =====
-- Which row a relay claims, and when a failed one comes back: claim, retry_delay and mark_failed of
-- services/outbox_worker.py.
use mathlib.Core.Path.{subst}
use myota_platform.Base.Order.{text_lt_asym, text_ge_trans}
use myota_platform.Outbox.Relay.{
  occurs_before, earliest, claim, claimable, pending, RelayDb, count_attempt,
}
use myota_platform.Jobs.Tables.{OutboxRow}
use myota_platform.Base.{
  List, ◌≡◌, All, true, false, some, arith, Bool-cases, ◌∷◌, inr, none, inl, Option-cases, All-map,
  [], ℕ, Bool, refl, String, keep, ◌&&◌, not,
}

occurs_before_asym : (a b : OutboxRow) → occurs_before a b ≡ true → occurs_before b a ≡ false
unfolding occurs_before
occurs_before_asym a b h = ground (arith, text_lt_asym a.event_id b.event_id)

occurs_ge_trans :
    (a b c : OutboxRow)
    → occurs_before a b ≡ false
    → occurs_before b c ≡ false
    → occurs_before a c ≡ false
unfolding occurs_before
occurs_ge_trans a b c h k = ground (arith, text_ge_trans a.event_id b.event_id c.event_id)

occurs_before_irrefl : (a : OutboxRow) → occurs_before a a ≡ false
occurs_before_irrefl a = elim (Bool-cases (occurs_before a a)) [
  | inr e ↦ e
  | inl e ↦ occurs_before_asym a a e
]

-- no row of the list occurs before the row
abbrev pub IsEarliest : List OutboxRow → OutboxRow → Type 0
IsEarliest os o = All (λ x. occurs_before x o ≡ false) os

earliest-IsEarliest : (os : List OutboxRow) (o : OutboxRow) → earliest os ≡ some o → IsEarliest os o
unfolding earliest
earliest-IsEarliest [] o h = tt
earliest-IsEarliest (x ∷ os) o h = elim (Option-cases (earliest os)) [
  | inl e ↦ (ground (arith, occurs_before_irrefl x), none-earliest os o e)
  | inr (best, e) ↦
      let rest = earliest-IsEarliest os best e in
      elim (Bool-cases (occurs_before best x)) [
        | inl b ↦
            let all_after : IsEarliest (x ∷ os) best = (occurs_before_asym best x b, rest) in
            let same : best ≡ o = ground arith in subst (IsEarliest (x ∷ os)) same all_after
        | inr b ↦
            let all_after : IsEarliest (x ∷ os) x =
              (occurs_before_irrefl x, All-map _ _ os (λ y n. occurs_ge_trans y best x n b) rest) in
            let same : x ≡ o = ground arith in subst (IsEarliest (x ∷ os)) same all_after
      ]
]
  where
    none-earliest : (os : List OutboxRow) (o : OutboxRow) → earliest os ≡ none → IsEarliest os o
    none-earliest [] o e = tt
    none-earliest (y ∷ os) o e = ground arith

-- what the list has in every row, its earliest row has
earliest-All :
    (P : OutboxRow → Type 0) (os : List OutboxRow) (o : OutboxRow)
    → All P os
    → earliest os ≡ some o
    → P o
unfolding earliest
earliest-All P [] o a h = ground arith
earliest-All P (x ∷ os) o a h = elim (Option-cases (earliest os)) [
  | inl e ↦ let same : x ≡ o = ground arith in subst P same a.0
  | inr (best, e) ↦ elim (Bool-cases (occurs_before best x)) [
    | inl b ↦ let same : best ≡ o = ground arith in subst P same (earliest-All P os best a.1 e)
    | inr b ↦ let same : x ≡ o = ground arith in subst P same a.0
  ]
]

-- a row that a relay may claim: unpublished, due, and not locked by another relay
abbrev pub is_claimable : ℕ → (String → Bool) → OutboxRow → Bool
is_claimable now locked o = pending now o && not (locked o.event_id)

keep_sound : {A : Type 0} (p : A → Bool) (xs : List A) → All (λ x. p x ≡ true) (keep p xs)
keep_sound p [] = tt
keep_sound p (x ∷ xs) = elim (Bool-cases (p x)) [
  | inl e ↦ rw e (e, keep_sound p xs)
  | inr e ↦ rw e (keep_sound p xs)
]

keep-All :
    {A : Type 0} (P : A → Type 0) (p : A → Bool) (xs : List A)
    → All P (keep p xs)
    → All (λ x. p x ≡ true → P x) xs
keep-All P p [] a = tt
keep-All P p (x ∷ xs) a = elim (Bool-cases (p x)) [
  | inl e ↦ let both : All P (x ∷ keep p xs) = rw e at a in ((λ t. both.0), keep-All P p xs both.1)
  | inr e ↦ let rest : All P (keep p xs) = rw e at a in ((λ t. ground arith), keep-All P p xs rest)
]

nothing_earliest : (os : List OutboxRow) → earliest os ≡ none → os ≡ []
unfolding earliest
nothing_earliest [] e = refl
nothing_earliest (y ∷ os) e = ground arith

-- A relay claims in order: what claim returns is a row that was unpublished, due and not locked by
-- another relay, with one attempt more, and no other such row occurred before it (by occurrence time,
-- then by identifier); it returns nothing, and changes nothing, only if there is no such row.
pub claim_is_earliest :
    (now : ℕ) (locked : String → Bool) (db : RelayDb)
    → ((o : OutboxRow)
        → (claim now locked db).0 ≡ some o
        → (r : OutboxRow) × (o ≡ count_attempt r)
          × (is_claimable now locked r ≡ true)
          × All (λ x. is_claimable now locked x ≡ true → occurs_before x r ≡ false) db.events)
      × ((claim now locked db).0 ≡ none
          → All (λ x. is_claimable now locked x ≡ false) db.events × ((claim now locked db).1 ≡ db))
unfolding claim claimable
claim_is_earliest now locked db = elim (Option-cases (earliest (claimable now locked db))) [
  | inr (r, e) ↦ (
    (λ o h. (
      r,
      ground arith,
      earliest-All (λ x. is_claimable now locked x ≡ true) (claimable now locked db) r
          (keep_sound (is_claimable now locked) db.events) e,
      keep-All (λ x. occurs_before x r ≡ false) (is_claimable now locked) db.events
          (earliest-IsEarliest (claimable now locked db) r e),
    )),
    λ h. ground arith,
  )
  | inl e ↦ (
    (λ o h. ground arith),
    λ h. (none_kept db.events (nothing_earliest (claimable now locked db) e), rw e refl),
  )
]
  where
    none_kept :
        (os : List OutboxRow)
        → keep (is_claimable now locked) os ≡ []
        → All (λ x. is_claimable now locked x ≡ false) os
    none_kept [] e = tt
    none_kept (x ∷ os) e = elim (Bool-cases (is_claimable now locked x)) [
      | inl t ↦ ground arith
      | inr t ↦ (t, none_kept os (rw t at e))
    ]
