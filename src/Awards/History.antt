-- ===== src/Awards/History.antt =====
-- Any sequence of requests to the award handlers of services/awards.py.
use mathlib.Core.Path.{subst}
use myota_platform.Awards.Lifecycle.{
  Caller, Store, bucket_get, status_in, id_of, submit_award, review_award, publish_award,
  retire_award, status_of, Database,
}
use myota_platform.Json.{Fields, get_value, Json, text}
use myota_platform.Builtins.{Builtins}
use myota_platform.Base.{
  String, List, Bool, ◌≡◌, ◌∷◌, some, true, [], str_eq, String-cases, inr, All, arith, inl, eq_iff,
  ◌∙◌, refl, false, ◌||◌, ◌⊎◌,
}
use myota_platform.Awards.Moves.{IsMove, Saved, SameDesign, fixed_fields, may_move}
use myota_platform.Base.Raise.{Result, ok, err, Result-cases}
use myota_platform.Awards.Handlers.{submit-Saved, review-Saved, publish-Saved, retire-Saved}
use myota_platform.Awards.Saves.{save-Saved, patch-Saved}
use myota_platform.Awards.Design.{ServiceError}
use myota_platform.Awards.Saving.{save_award, patch_award, record_id_of}
use myota_platform.Outbox.Routing.{is_text}
use myota_platform.Awards.Table.{IsKeyed, bucket_set-IsKeyed, bucket_get-bucket_set, IsCanonical}

pub data Request : Type 0 where
  save : (caller : Caller) (now new_id : String) (body : Fields) → Request
  submit : (caller : Caller) (now id : String) → Request
  review : (caller : Caller) (now id : String) (body : Fields) → Request
  publish : (caller : Caller) (now id : String) (body : Fields) → Request
  retire : (caller : Caller) (id : String) (body : Fields) → Request
  patch : (caller : Caller) (now new_id id : String) (body : Fields) → Request

-- the moves of an award, one after the other
pub data Life : Fields → Fields → Type 0 where
  unchanged : (a : Fields) → Life a a
  moves_on : (a b c : Fields) → IsMove a b → Life b c → Life a c

-- A handler that raises leaves the store as it was.
abbrev pub kept_or_saved : Store → Result ServiceError (Fields × Store) → Store
kept_or_saved store (ok (a, after)) = after
kept_or_saved store (err e) = store

Saved-IsKeyed :
    (db : Database) (before after : Store)
    → IsKeyed db before.definitions
    → Saved db before after
    → IsKeyed db after.definitions
Saved-IsKeyed db before after keyed s =
    rw s.written
      (bucket_set-IsKeyed db (id_of s.award) s.award before.definitions keyed refl s.canonical)

Saved-Life :
    (db : Database) (before after : Store) (k : String) (a : Fields)
    → Saved db before after
    → bucket_get k before.definitions ≡ some a
    → (b : Fields) × (bucket_get k after.definitions ≡ some b) × Life a b
Saved-Life db before after k a s found =
    let here = bucket_get-bucket_set k (id_of s.award) s.award before.definitions in
    elim (String-cases (id_of s.award) k) [
      | inl (e, p) ↦ (
        s.award,
        rw (s.written, here, e) refl,
        moves_on a s.award s.award (s.moved a (rw p found)) (unchanged s.award),
      )
      | inr (e, n) ↦ (a, rw (s.written, here, e) found, unchanged a)
    ]

Life-trans : {a b c : Fields} → Life a b → Life b c → Life a c
Life-trans (unchanged a) l = l
Life-trans (moves_on a b c m k) l = moves_on a b _ m (Life-trans k l)

module _ (db : Database) (py : Builtins) where
  unfoldable pub handle : Request → Store → Result ServiceError (Fields × Store)
  handle (save caller now new_id body) store = save_award py db caller now new_id body store
  handle (submit caller now id) store = submit_award db caller now id store
  handle (review caller now id body) store = review_award db caller now id body store
  handle (publish caller now id body) store = publish_award db py caller now id body store
  handle (retire caller id body) store = retire_award db caller id body store
  handle (patch caller now new_id id body) store = patch_award py db caller now new_id id body store

  unfoldable pub serve : Store → List Request → Store
  serve store [] = store
  serve store (r ∷ rs) = serve (kept_or_saved store (handle r store)) rs

  -- The identifier that a request may save under is written canonically; the other handlers take every way
  -- to write it.
  abbrev pub IsPlain : Request → Type 0
  IsPlain (save caller now new_id body) =
      (k : String) → record_id_of "awardId" new_id body ≡ ok k → IsCanonical db k
  IsPlain (patch caller now new_id id body) = IsCanonical db id × IsCanonical db new_id
  IsPlain _ = Unit

  handle-Saved :
      (r : Request) (store : Store) (a : Fields) (after : Store)
      → IsKeyed db store.definitions
      → IsPlain r
      → handle r store ≡ ok (a, after)
      → Saved db store after
  unfolding handle
  handle-Saved (save caller now new_id body) store a after keyed plain h =
      save-Saved db py caller store a after keyed now new_id body plain h
  handle-Saved (submit caller now id) store a after keyed plain h =
      submit-Saved db caller id store a after keyed now h
  handle-Saved (review caller now id body) store a after keyed plain h =
      review-Saved db caller id store a after keyed now body h
  handle-Saved (publish caller now id body) store a after keyed plain h =
      publish-Saved db py caller store a after keyed now id body h
  handle-Saved (retire caller id body) store a after keyed plain h =
      retire-Saved db caller id store a after keyed body h
  handle-Saved (patch caller now new_id id body) store a after keyed plain h =
      patch-Saved db py caller store a after keyed now new_id id body plain.0 plain.1 h

-- Whatever requests are made to the award handlers, by whomever and in any order, one after the other: an
-- award that is there stays there under its uuid, and has gone through moves of the life cycle only (from
-- DRAFT or CHANGES_REQUESTED to UNDER_REVIEW, on to APPROVED or back to CHANGES_REQUESTED, to PUBLISHED, to
-- RETIRED), its design being changed in DRAFT and CHANGES_REQUESTED alone; if at first the identifier of
-- each award was the uuid of its row, and it is written as the database writes uuids, there and in every
-- request to save or to patch.
pub award_lives :
    (db : Database) (py : Builtins) (rs : List Request) (store : Store) (k : String) (a : Fields)
    → IsKeyed db store.definitions
    → All (IsPlain db py) rs
    → bucket_get k store.definitions ≡ some a
    → (b : Fields) × (bucket_get k (serve db py store rs).definitions ≡ some b) × Life a b
unfolding serve
award_lives db py [] store k a keyed plain found = (a, found, unchanged a)
award_lives db py (r ∷ rs) store k a keyed plain found =
    elim (Result-cases (handle db py r store)) [
      | inr (x, e) ↦ rw (serve, e) (award_lives db py rs store k a keyed plain.1 found)
      | inl ((s, after), e) ↦
          let saved = handle-Saved db py r store s after keyed plain.0 e in
          let (b, at_b, first) = Saved-Life db store after k a saved found in
          let (c, at_c, rest) =
            award_lives db py rs after k b (Saved-IsKeyed db store after keyed saved) plain.1
              at_b in
          rw (serve, e) (c, at_c, Life-trans first rest)
    ]

-- what is left to a published award
abbrev pub is_out : Fields → Bool
is_out a = status_in ("PUBLISHED" ∷ "RETIRED" ∷ []) a

out_text :
    (s : String)
    → str_eq s "PUBLISHED" || str_eq s "RETIRED" ≡ true
    → (s ≡ "PUBLISHED") ⊎ (s ≡ "RETIRED")
out_text s h = elim (String-cases s "PUBLISHED") [
  | inl (e, p) ↦ inl p
  | inr (e, n) ↦ inr ((eq_iff s "RETIRED").0 (ground arith))
]

move_from_out :
    (old new : Json)
    → is_text old "PUBLISHED" || is_text old "RETIRED" ≡ true
    → may_move old new ≡ true
    → (is_text new "PUBLISHED" || is_text new "RETIRED" ≡ true)
      × (is_text old "DRAFT" || is_text old "CHANGES_REQUESTED" ≡ false)
move_from_out (text s) new h m = elim (out_text s h) [
  | inl p ↦
      let from_here : may_move (text "PUBLISHED") new ≡ true =
        subst (λ t. may_move (text t) new ≡ true) p m in
      (ground arith, rw p refl)
  | inr p ↦
      let from_here : may_move (text "RETIRED") new ≡ true =
        subst (λ t. may_move (text t) new ≡ true) p m in
      (ground arith, rw p refl)
]
move_from_out _ new h m = ground arith

SameDesign_trans :
    (a b c : Fields) (ks : List String)
    → All (λ k. get_value k c ≡ get_value k b) ks
    → All (λ k. get_value k b ≡ get_value k a) ks
    → All (λ k. get_value k c ≡ get_value k a) ks
SameDesign_trans a b c [] p q = tt
SameDesign_trans a b c (k ∷ ks) p q = (p.0 ∙ q.0, SameDesign_trans a b c ks p.1 q.1)

SameDesign_refl : (a : Fields) (ks : List String) → All (λ k. get_value k a ≡ get_value k a) ks
SameDesign_refl a [] = tt
SameDesign_refl a (k ∷ ks) = (refl, SameDesign_refl a ks)

out_stays : {a b : Fields} → Life a b → is_out a ≡ true → (is_out b ≡ true) × SameDesign b a
out_stays (unchanged a) h = (h, SameDesign_refl a fixed_fields)
out_stays (moves_on a b c m l) h =
    let (out, fixed) = move_from_out (status_of a) (status_of b) (ground arith) m.moved in
    let (ends, same) = out_stays l (ground arith) in
    (ends, SameDesign_trans a b c fixed_fields same (m.design (ground arith)))

-- A published award is settled: whatever requests follow, one after the other, it stays published or is
-- retired, and its category, version, condition, levels, background and template stay as they are; if at
-- first the identifier of each award was the uuid of its row, and it is written as the database writes uuids,
-- there and in every request to save or to patch.
pub published_is_settled :
    (db : Database) (py : Builtins) (rs : List Request) (store : Store) (k : String) (a : Fields)
    → IsKeyed db store.definitions
    → All (IsPlain db py) rs
    → bucket_get k store.definitions ≡ some a
    → is_out a ≡ true
    → (b : Fields) × (bucket_get k (serve db py store rs).definitions ≡ some b)
      × ((is_out b ≡ true) × SameDesign b a)
published_is_settled db py rs store k a keyed plain found h =
    let (b, at_b, life) = award_lives db py rs store k a keyed plain found in
    (b, at_b, out_stays life h)
