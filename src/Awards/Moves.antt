-- ===== src/Awards/Moves.antt =====
-- The life cycle that the handlers of services/awards.py allow an award.
use mathlib.Core.Path.{subst, ap, sym}
use myota_platform.Base.{
  List, String, Bool, All, ◌∷◌, any, ◌≡◌, [], if◌then◌else◌, ◌&&◌, true, str_eq, false, some, arith,
  eq_iff, refl, ◌∙◌, none, all, Bool-cases, not, inl, inr,
}
use myota_platform.Json.{Json, Fields, get, get_value, merge, set_field, field, end, has_key}
use myota_platform.Awards.Lifecycle.{
  id_of, status_in, status_of, update, id_text, Store, bucket_set, bucket_get, Database, award_of,
  save_definition,
}
use myota_platform.Outbox.Routing.{is_text}
use myota_platform.Base.Raise.{ok}
use myota_platform.Awards.Table.{IsCanonical, IsKeyed, award_of-row, save_definition-row}

-- the moves of an award's status
abbrev pub moves : List (String × String)
moves =
    ("DRAFT", "DRAFT")
    ∷ ("CHANGES_REQUESTED", "CHANGES_REQUESTED")
    ∷ ("DRAFT", "UNDER_REVIEW")
    ∷ ("CHANGES_REQUESTED", "UNDER_REVIEW")
    ∷ ("UNDER_REVIEW", "APPROVED")
    ∷ ("UNDER_REVIEW", "CHANGES_REQUESTED")
    ∷ ("APPROVED", "PUBLISHED")
    ∷ ("APPROVED", "RETIRED")
    ∷ ("PUBLISHED", "RETIRED")
    ∷ []

abbrev pub may_move : Json → Json → Bool
may_move old new = any (λ m. is_text old m.0 && is_text new m.1) moves

-- what a certificate is computed from
abbrev pub fixed_fields : List String
fixed_fields = "category" ∷ "version" ∷ "condition" ∷ "levels" ∷ "backgroundAsset" ∷ "template" ∷ []

abbrev pub SameDesign : Fields → Fields → Type 0
SameDesign a b = All (λ k. get_value k a ≡ get_value k b) fixed_fields

-- What a handler may put in the place of an award: the status moves, and outside of DRAFT and
-- CHANGES_REQUESTED the design stays.
pub record IsMove (old new : Fields) : Type 0 where
  pub same_id : id_of new ≡ id_of old
  pub moved : may_move (status_of old) (status_of new) ≡ true
  pub design : status_in ("DRAFT" ∷ "CHANGES_REQUESTED" ∷ []) old ≡ false → SameDesign new old

get-set_field :
    (k j : String) (v : Json) (fs : Fields)
    → get k (set_field j v fs) ≡ (if str_eq j k then some v else get k fs)
unfolding get set_field
get-set_field k j v end = refl
get-set_field k j v (field i w fs) =
    ground (arith, get-set_field k j v fs, eq_iff i j, eq_iff i k, eq_iff j k)

pub get_value-set_field :
    (k j : String) (v : Json) (fs : Fields)
    → get_value k (set_field j v fs) ≡ (if str_eq j k then v else get_value k fs)
unfolding get_value
get_value-set_field k j v fs = ground (arith, get-set_field k j v fs)

-- what d.update(e) leaves under a key, from what was there
abbrev pub after_update : String → Json → Fields → Json
after_update k v end = v
after_update k v (field j w e) = after_update k (if str_eq j k then w else v) e

pub get_value-merge :
    (k : String) (d e : Fields) → get_value k (merge d e) ≡ after_update k (get_value k d) e
unfolding merge
get_value-merge k d end = refl
get_value-merge k d (field j w e) =
    get_value-merge k (set_field j w d) e
    ∙ ap (λ v. after_update k v e) (get_value-set_field k j w d)

after_update-absent :
    (k : String) (v : Json) (e : Fields) → has_key k e ≡ false → after_update k v e ≡ v
unfolding has_key get
after_update-absent k v end h = refl
after_update-absent k v (field j w e) h = elim (Bool-cases (str_eq j k)) [
  | inl t ↦ ground arith
  | inr t ↦ rw t (after_update-absent k v e (ground arith))
]

-- none of the keys is in the dictionary
abbrev pub lacks : List String → Fields → Bool
lacks ks e = all (λ k. not (has_key k e)) ks

kept :
    (award e : Fields) (ks : List String)
    → lacks ks e ≡ true
    → All (λ k. get_value k (update award e) ≡ get_value k award) ks
kept award e [] h = tt
kept award e (k ∷ ks) h = (
  get_value-merge k award e ∙ after_update-absent k (get_value k award) e (ground arith),
  kept award e ks (ground arith),
)

-- An update of an award outside of its identifier and its design is a move, if its status moves.
pub update-IsMove :
    (award e : Fields)
    → lacks ("id" ∷ fixed_fields) e ≡ true
    → may_move (status_of award) (after_update "status" (status_of award) e) ≡ true
    → IsMove award (update award e)
update-IsMove award e outside h =
    let same = kept award e ("id" ∷ fixed_fields) outside in
    record {
      same_id = ap id_text same.0;
      moved =
          subst (λ v. may_move (status_of award) v ≡ true) (sym (get_value-merge "status" award e))
            h;
      design = λ t. same.1;
    }

module _ (db : Database) where
  -- what a handler leaves: the store, but for one award that is new or has moved
  pub record Saved (before after : Store) : Type 0 where
    pub award : Fields
    pub canonical : IsCanonical db (id_of award)
    pub written : after.definitions ≡ bucket_set (id_of award) award before.definitions
    pub fresh :
        bucket_get (id_of award) before.definitions ≡ none
        → is_text (status_of award) "DRAFT" ≡ true
    pub moved :
        (old : Fields) → bucket_get (id_of award) before.definitions ≡ some old → IsMove old award

  -- An award that is found and updated outside of its identifier and its design.
  pub update-Saved :
      (id : String) (award e : Fields) (before saved after : Store)
      → IsKeyed db before.definitions
      → award_of db id before ≡ ok award
      → IsMove award (update award e)
      → save_definition db (update award e) before ≡ ok saved
      → after.definitions ≡ saved.definitions
      → Saved before after
  update-Saved id award e before saved after keyed found move wrote at_after =
      let (row, canonical) = award_of-row db id before award keyed found in
      let here : bucket_get (id_of (update award e)) before.definitions ≡ some award =
        rw move.same_id row in
      let own : IsCanonical db (id_of (update award e)) = rw move.same_id canonical in
      record {
        award = update award e;
        canonical = own;
        written =
            at_after
            ∙ save_definition-row db (update award e) (id_of (update award e)) before saved wrote
                own;
        fresh = λ n. ground arith;
        moved = λ old at_old.
            let same : award ≡ old = ground arith in
            subst (λ o. IsMove o (update award e)) same move;
      }
