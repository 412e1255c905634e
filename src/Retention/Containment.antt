-- ===== src/Retention/Containment.antt =====
-- Where the objects lie that source_object of services/import_retention.py names.
use mathlib.Core.Path.{subst, sym}
use myota_platform.Base.{
  false, none, some, arith, ◌∷◌, [], ℕ, List, String, Option, any, if◌then◌else◌, str_eq, ◌≡◌, zero,
  ◌+◌, suc, length, ap, ◌||◌, refl, inl, inr, Bool-cases, ◌∙◌,
}
use myota_platform.Retention.Source.{
  is_unsafe_part, checked_object, split_at, is_unsafe_key, has_character, is_unsafe_bucket,
  object_of, key_object, object_in, source_object, loaded,
}
use myota_platform.Base.Text.{is_empty, strip}
use myota_platform.Base.Raise.{ok, err, Result-cases}
use myota_platform.Json.{Json, object, text, get_value, truthy}
use myota_platform.Outbox.Routing.{is_text}
use myota_platform.Awards.Design.{value_error}

-- os.path.normpath on the parts of a key: a part ".." goes up, "." and the empty part stay
unfoldable pub walk : ℕ → List String → Option ℕ
walk depth [] = some depth
walk depth (part ∷ parts) =
    if str_eq part ".."
    then (elim depth [ zero ↦ none | suc n ↦ walk n parts ])
    else if is_empty part || str_eq part "."
    then walk depth parts
    else walk (suc depth) parts

walk-safe :
    (parts : List String) (depth : ℕ)
    → any is_unsafe_part parts ≡ false
    → walk depth parts ≡ some (depth + length parts)
unfolding walk
walk-safe [] depth h = ap some (omega arith)
walk-safe (part ∷ parts) depth h =
    let rest = walk-safe parts (suc depth) (ground arith) in
    let up : str_eq part ".." ≡ false = ground arith in
    let here : (is_empty part || str_eq part ".") ≡ false = ground arith in
    rw (up, here, rest) (ap some (omega arith))

checked_object-ok :
    (import_bucket : String) (bucket : Json) (key : String) (r : String × String)
    → checked_object import_bucket bucket key ≡ ok r
    → (r ≡ (import_bucket, key)) × (is_unsafe_key key ≡ false)
unfolding checked_object
checked_object-ok import_bucket bucket key r h = elim (Bool-cases (is_text bucket import_bucket)) [
  | inr a ↦
      let no_ : checked_object import_bucket bucket key ≡ err value_error =
        rw (checked_object, a) refl in
      absurd cc
  | inl a ↦ elim (Bool-cases (is_empty (strip key))) [
    | inl b ↦
        let no_ : checked_object import_bucket bucket key ≡ err value_error =
          rw (checked_object, a, b) refl in
        absurd cc
    | inr b ↦ elim (Bool-cases (is_unsafe_bucket import_bucket)) [
      | inl c ↦
          let no_ : checked_object import_bucket bucket key ≡ err value_error =
            rw (checked_object, a, b, c) refl in
          absurd cc
      | inr c ↦ elim (Bool-cases (is_unsafe_key key)) [
        | inl d ↦
            let no_ : checked_object import_bucket bucket key ≡ err value_error =
              rw (checked_object, a, b, c, d) refl in
            absurd cc
        | inr d ↦
            let yes_ : checked_object import_bucket bucket key ≡ ok (import_bucket, key) =
              rw (checked_object, a, b, c, d) refl in
            (cc, d)
      ]
    ]
  ]
]

-- the object lies in the bucket of imports, under its root
pub record IsInside (import_bucket : String) (r : String × String) : Type 0 where
  pub bucket : r.0 ≡ import_bucket
  pub depth : walk 0 (split_at 0x2f r.1) ≡ some (length (split_at 0x2f r.1))
  pub no_backslash : has_character 0x5c r.1 ≡ false

checked_object-IsInside :
    (import_bucket : String) (bucket : Json) (key : String) (r : String × String)
    → checked_object import_bucket bucket key ≡ ok r
    → IsInside import_bucket r
unfolding is_unsafe_key
checked_object-IsInside import_bucket bucket key r h =
    let c = checked_object-ok import_bucket bucket key r h in
    let safe : any is_unsafe_part (split_at 0x2f key) ≡ false = ground (arith, c.1) in
    subst (IsInside import_bucket) (sym c.0) (record {
      bucket = refl;
      depth = walk-safe (split_at 0x2f key) 0 safe ∙ ap some (omega arith);
      no_backslash = ground (arith, c.1);
    })

module _ (import_bucket : String) (r : String × String) where
  key_object-IsInside :
      (bucket v : Json) → key_object import_bucket bucket v ≡ ok (some r) → IsInside import_bucket r
  unfolding key_object
  key_object-IsInside bucket (text k) h =
      elim (Result-cases (checked_object import_bucket bucket k)) [
        | inr (e, m) ↦
            let no_ : key_object import_bucket bucket (text k) ≡ err e = rw (key_object, m) refl in
            absurd cc
        | inl (q, m) ↦
            let yes_ : key_object import_bucket bucket (text k) ≡ ok (some q) =
              rw (key_object, m) refl in
            let same : q ≡ r = cc in
            subst (IsInside import_bucket) same (checked_object-IsInside import_bucket bucket k q m)
      ]
  key_object-IsInside bucket _ h = absurd cc

  object_of-IsInside :
      (v : Json) → object_of import_bucket v ≡ ok (some r) → IsInside import_bucket r
  unfolding object_of
  object_of-IsInside (object source) h =
      let key = get_value "objectKey" source in
      elim (Bool-cases (truthy key)) [
        | inr n ↦
            let no_ : object_of import_bucket (object source) ≡ ok none = rw (object_of, n) refl in
            absurd cc
        | inl y ↦ key_object-IsInside _ key (rw y at h)
      ]
  object_of-IsInside _ h = absurd cc

  object_in-IsInside :
      (v : Json) → object_in import_bucket v ≡ ok (some r) → IsInside import_bucket r
  unfolding object_in
  object_in-IsInside (object d) h = object_of-IsInside (get_value "source" d) h
  object_in-IsInside _ h = absurd cc

-- An object that source_object lets be deleted lies inside the bucket of imports, whatever the metadata of the
-- import say: its bucket is that bucket, each part of its key leads one level further down from the root, so
-- that none is empty, "." or "..", and the key has no backslash.
pub source_object_stays-IsInside :
    (loads : String → Option Json) (metadata : Json) (import_bucket : String) (r : String × String)
    → source_object loads metadata import_bucket ≡ ok (some r)
    → IsInside import_bucket r
unfolding source_object
source_object_stays-IsInside loads metadata import_bucket r h =
    elim (Result-cases (loaded loads metadata)) [
      | inr (e, m) ↦
          let no_ : source_object loads metadata import_bucket ≡ err e =
            rw (source_object, m) refl in
          absurd cc
      | inl (v, m) ↦ object_in-IsInside import_bucket r v (rw m at h)
    ]
