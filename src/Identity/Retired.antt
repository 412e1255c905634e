-- ===== src/Identity/Retired.antt =====
-- A primary callsign that is to be replaced by itself: retire_callsign of services/identity.py.
use myota_platform.Base.{
  refl, true, false, some, arith, ◌∷◌, [], String, List, ℕ, All, ◌≡◌, str_eq, update_row, ◌++◌,
  eq_refl,
}
use myota_platform.Base.Raise.{ok}
use myota_platform.Identity.Callsigns.{
  replaced_primary, without_callsign, is_active, is_retired, change_callsign, retired,
}
use myota_platform.Identity.Store.{Callsign, Account}
use myota_platform.Json.{Json, text}
use myota_platform.Base.Text.{is_empty}
use myota_platform.Identity.Primary.{has_active_primary}

-- no callsign of the list has the identifier
abbrev pub HasNo : String → List Callsign → Type 0
HasNo id cs = All (λ d. str_eq d.id id ≡ false) cs

is_active-none : (id : String) (cs : List Callsign) → HasNo id cs → is_active id cs ≡ false
is_active-none id [] h = refl
is_active-none id (c ∷ cs) h = ground (arith, is_active-none id cs h.1, h.0)

module _ (id : String) (c : Callsign) (same : c.id ≡ id) (after : List Callsign) where
  is_active-middle :
      (before : List Callsign) → is_retired c ≡ false → is_active id (before ++ c ∷ after) ≡ true
  is_active-middle [] n = rw (same, eq_refl id, n) refl
  is_active-middle (d ∷ before) n = ground (arith, is_active-middle before n)

  is_active-retired :
      (before : List Callsign) (f : Callsign → Callsign)
      → is_retired (f c) ≡ true
      → HasNo id before
      → HasNo id after
      → is_active id (change_callsign id f (before ++ c ∷ after)) ≡ false
  unfolding update_row
  is_active-retired [] f r hb ha =
      rw (update_row, same, eq_refl id) (ground (arith, is_active-none id after ha))
  is_active-retired (d ∷ before) f r hb ha =
      rw (update_row, hb.0) (ground (arith, hb.0, is_active-retired before f r hb.1 ha))

-- An active primary callsign that is retired with itself as the new primary one is accepted, because it is
-- not retired yet when the replacement is checked; the account is left with a retired primary callsign.
pub own_replacement_is_accepted :
    (now : ℕ) (id : String) (valid_to : Json) (a : Account) (before after : List Callsign)
    (c : Callsign)
    → a.primary_callsign_id ≡ some id
    → a.callsigns ≡ before ++ c ∷ after
    → c.id ≡ id
    → is_retired c ≡ false
    → is_empty id ≡ false
    → HasNo id before
    → HasNo id after
    → (replaced_primary id (text id) a ≡ ok (some id))
      × (has_active_primary (without_callsign now id valid_to (some id) a) ≡ false)
unfolding replaced_primary without_callsign
own_replacement_is_accepted now id valid_to a before after c p cs same n e hb ha =
    let active = is_active-middle id c same after before n in
    (
      rw (p, cs, replaced_primary, eq_refl id, e, active) refl,
      rw (cs) (is_active-retired id c same after before (retired now valid_to) refl hb ha),
    )
