-- ===== src/Notifications/Diagnostics.antt =====
-- What _safe_diagnostic of services/event_consumer.py hides and what it keeps.
use mathlib.Core.Path.{subst}
use myota_platform.Json.{
  Json, Items, Fields, object, array, null, boolean, number, real, text, nil, cons, field, end,
}
use myota_platform.Base.{
  refl, true, false, inl, inr, String, ◌≡◌, if◌then◌else◌, ◌⊎◌, ap, Bool-cases, Bool,
}
use myota_platform.Notifications.Redaction.{
  safe_diagnostic, clean, is_sensitive, clean_items, clean_fields,
}

module _ (lower : String → String) where
  unfoldable mutual
    -- two values that are alike except under sensitive keys
    pub Alike : Json → Json → Type 0
    Alike (object fs) (object gs) = AlikeFields fs gs
    Alike (array vs) (array ws) = AlikeItems vs ws
    Alike v w = v ≡ w

    pub AlikeItems : Items → Items → Type 0
    AlikeItems nil nil = Unit {0}
    AlikeItems (cons v vs) (cons w ws) = Alike v w × AlikeItems vs ws
    AlikeItems vs ws = vs ≡ ws

    pub AlikeFields : Fields → Fields → Type 0
    AlikeFields end end = Unit {0}
    AlikeFields (field k v fs) (field j w gs) =
        ((k ≡ j) × ((is_sensitive lower k ≡ true) ⊎ Alike v w)) × AlikeFields fs gs
    AlikeFields fs gs = fs ≡ gs

  abbrev shown : String → Json → Json
  shown k v = if is_sensitive lower k then text "[REDACTED]" else clean lower v

  mutual
    unfolding clean Alike

    clean-Alike : (v w : Json) → Alike v w → clean lower v ≡ clean lower w
    clean-Alike (object fs) (object gs) h = ap object (fields-Alike fs gs h)
    clean-Alike (array vs) (array ws) h = ap array (items-Alike vs ws h)
    clean-Alike v w h = ap (clean lower) h

    items-Alike : (vs ws : Items) → AlikeItems vs ws → clean_items lower vs ≡ clean_items lower ws
    items-Alike nil nil h = refl
    items-Alike (cons v vs) (cons w ws) h =
        let a = clean-Alike v w h.0 in let b = items-Alike vs ws h.1 in cc
    items-Alike vs ws h = ap (clean_items lower) h

    fields-Alike :
        (fs gs : Fields) → AlikeFields fs gs → clean_fields lower fs ≡ clean_fields lower gs
    fields-Alike end end h = refl
    fields-Alike (field k v fs) (field j w gs) h =
        let b = fields-Alike fs gs h.1 in
        let p = h.0.0 in
        elim h.0.1 [
          | inl s ↦ let q : is_sensitive lower j ≡ true = rw (← p) s in rw (s, q) (cc)
          | inr a ↦
              let c = clean-Alike v w a in let e : shown k v ≡ shown j w = rw (p, c) refl in cc
        ]
    fields-Alike fs gs h = ap (clean_fields lower) h

  abbrev is_leaf : Json → Bool
  is_leaf (object fs) = false
  is_leaf (array vs) = false
  is_leaf v = true

  leaf : (v w : Json) → is_leaf v ≡ true → v ≡ clean lower w → v ≡ w
  unfolding clean
  leaf v (object gs) n h =
      let no_ : is_leaf (object (clean_fields lower gs)) ≡ true =
        subst (λ x. is_leaf x ≡ true) h n in
      cc
  leaf v (array ws) n h =
      let no_ : is_leaf (array (clean_items lower ws)) ≡ true = subst (λ x. is_leaf x ≡ true) h n in
      cc
  leaf v w n h = h

  mutual
    unfolding clean Alike

    Alike-clean : (v w : Json) → clean lower v ≡ clean lower w → Alike v w
    Alike-clean (object fs) (object gs) h = AlikeFields-clean fs gs (cc)
    Alike-clean (array vs) (array ws) h = AlikeItems-clean vs ws (cc)
    Alike-clean (object fs) w h = cc
    Alike-clean (array vs) w h = cc
    Alike-clean null w h = leaf null w refl h
    Alike-clean (boolean b) w h = leaf (boolean b) w refl h
    Alike-clean (number n) w h = leaf (number n) w refl h
    Alike-clean (real s) w h = leaf (real s) w refl h
    Alike-clean (text s) w h = leaf (text s) w refl h

    AlikeItems-clean :
        (vs ws : Items) → clean_items lower vs ≡ clean_items lower ws → AlikeItems vs ws
    AlikeItems-clean nil nil h = tt
    AlikeItems-clean (cons v vs) (cons w ws) h = (Alike-clean v w (cc), AlikeItems-clean vs ws (cc))
    AlikeItems-clean vs ws h = cc

    AlikeFields-clean :
        (fs gs : Fields) → clean_fields lower fs ≡ clean_fields lower gs → AlikeFields fs gs
    AlikeFields-clean end end h = tt
    AlikeFields-clean (field k v fs) (field j w gs) h =
        let p : k ≡ j = cc in
        let e : shown k v ≡ shown j w = cc in
        (
          (
            p,
            elim (Bool-cases (is_sensitive lower k)) [
              | inl s ↦ inl s
              | inr s ↦
                  let q : is_sensitive lower j ≡ false = rw (← p) s in
                  inr (Alike-clean v w (rw (s, q) at e))
            ],
          ),
          AlikeFields-clean fs gs (cc),
        )
    AlikeFields-clean fs gs h = cc

-- The diagnostic of an event hides the values under sensitive keys, at any depth, and nothing else: two
-- events have the same diagnostic just when they are alike except for the values under such keys.
pub safe_diagnostic_hides :
    (lower : String → String) (event other : Fields)
    → (safe_diagnostic lower event ≡ safe_diagnostic lower other → AlikeFields lower event other)
      × (AlikeFields lower event other → safe_diagnostic lower event ≡ safe_diagnostic lower other)
unfolding safe_diagnostic
safe_diagnostic_hides lower event other =
    (AlikeFields-clean lower event other, fields-Alike lower event other)
