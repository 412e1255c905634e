-- ===== src/Awards/Table.antt =====
-- The rows in which services/activity_repository.py keeps the awards: save_collection and
use mathlib.Core.Path.{subst, sym}
use myota_platform.Base.{
  refl, none, some, inl, inr, arith, ◌∷◌, [], String, ◌≡◌, if◌then◌else◌, String-cases,
  Option-cases, Bool-cases, str_eq, ◌∙◌, ap, eq_iff, ◌≢◌,
}
use myota_platform.Base.Raise.{ok}
use myota_platform.Awards.Lifecycle.{
  bucket_get, Database, bucket_set, Bucket, item_of, award_of, save_definition, id_of, Store,
  get_collection_record, save_collection,
}
use myota_platform.Json.{Fields}

-- get_collection_record go by the uuid, and the dictionary that list_collection is made into by the text.
pub bucket_get-bucket_set :
    (k j : String) (v : Fields) (xs : Bucket)
    → bucket_get k (bucket_set j v xs) ≡ (if str_eq j k then some v else bucket_get k xs)
unfolding bucket_get bucket_set
bucket_get-bucket_set k j v [] = refl
bucket_get-bucket_set k j v ((i, w) ∷ xs) =
    ground (arith, bucket_get-bucket_set k j v xs, eq_iff i j, eq_iff i k, eq_iff j k)

module _ (db : Database) where
  -- the text is how the database itself writes the uuid
  abbrev pub IsCanonical : String → Type 0
  IsCanonical k = db.uuid k ≡ some k

  -- a row for each uuid, whose award has that uuid for its identifier, written canonically
  abbrev pub IsKeyed : Bucket → Type 0
  IsKeyed [] = Unit
  IsKeyed ((k, award) ∷ rows) =
      (id_of award ≡ k) × (IsCanonical k × ((bucket_get k rows ≡ none) × IsKeyed rows))

  pub keyed_row :
      (k : String) (a : Fields) (rows : Bucket)
      → IsKeyed rows
      → bucket_get k rows ≡ some a
      → (id_of a ≡ k) × IsCanonical k
  unfolding bucket_get
  keyed_row k a [] keyed found = ground arith
  keyed_row k a ((j, b) ∷ rows) (same, (canonical, (single, rest))) found =
      elim (String-cases j k) [
        | inl (e, p) ↦
            let here : b ≡ a = ground arith in
            (subst (λ x. id_of x ≡ k) here (same ∙ p), subst IsCanonical p canonical)
        | inr (e, n) ↦ keyed_row k a rows rest (ground arith)
      ]

  -- under canonical identifiers, the dictionary and the table agree
  pub item_of-keyed :
      (k : String) (rows : Bucket) → IsKeyed rows → item_of k rows ≡ bucket_get k rows
  unfolding item_of bucket_get
  item_of-keyed k [] keyed = refl
  item_of-keyed k ((j, b) ∷ rows) (same, (canonical, (single, rest))) =
      let later = item_of-keyed k rows rest in
      elim (String-cases j k) [
        | inl (e, p) ↦
            let gone : bucket_get k rows ≡ none = rw p at single in rw (later, gone, same, e) refl
        | inr (e, n) ↦ elim (Option-cases (bucket_get k rows)) [
          | inl m ↦ rw (later, m, same, e) refl
          | inr (x, m) ↦ rw (later, m, e) refl
        ]
      ]

  pub bucket_set-IsKeyed :
      (k : String) (a : Fields) (rows : Bucket)
      → IsKeyed rows
      → id_of a ≡ k
      → IsCanonical k
      → IsKeyed (bucket_set k a rows)
  unfolding bucket_set bucket_get
  bucket_set-IsKeyed k a [] keyed same canonical = (same, (canonical, (refl, tt)))
  bucket_set-IsKeyed k a ((j, b) ∷ rows) (own, (written, (single, rest))) same canonical =
      elim (String-cases j k) [
        | inl (e, p) ↦ rw e (same, (canonical, ((rw p at single), rest)))
        | inr (e, n) ↦ rw e (
          own,
          (
            written,
            (
              bucket_get-bucket_set j k a rows ∙ ground (arith, eq_iff k j, eq_iff j k),
              bucket_set-IsKeyed k a rows rest same canonical,
            ),
          ),
        )
      ]

  -- an award that _award finds
  pub award_of-row :
      (id : String) (store : Store) (a : Fields)
      → IsKeyed store.definitions
      → award_of db id store ≡ ok a
      → (bucket_get (id_of a) store.definitions ≡ some a) × IsCanonical (id_of a)
  unfolding award_of get_collection_record
  award_of-row id store a keyed h = elim (Option-cases (db.uuid id)) [
    | inl e ↦ ground arith
    | inr (k, e) ↦ elim (Option-cases (bucket_get k store.definitions)) [
      | inl m ↦ ground arith
      | inr (b, m) ↦
          let here : b ≡ a = ground arith in
          let found : bucket_get k store.definitions ≡ some a = rw m (ap some here) in
          let (same, canonical) = keyed_row k a store.definitions keyed found in
          rw same (found, canonical)
    ]
  ]

  -- a saved award is the row of its uuid
  pub save_definition-row :
      (a : Fields) (k : String) (store after : Store)
      → save_definition db a store ≡ ok after
      → db.uuid (id_of a) ≡ some k
      → after.definitions ≡ bucket_set k a store.definitions
  unfolding save_definition save_collection
  save_definition-row a k store after h e = elim (Bool-cases (db.takes a store.definitions)) [
    | inl t ↦ ground arith
    | inr t ↦ ground arith
  ]

  -- no row is found under a text that is not canonical
  pub other_spelling :
      (s k : String) (rows : Bucket)
      → IsKeyed rows
      → db.uuid s ≡ some k
      → s ≢ k
      → bucket_get s rows ≡ none
  other_spelling s k rows keyed spelt other = elim (Option-cases (bucket_get s rows)) [
    | inl e ↦ e
    | inr (a, e) ↦ absurd (other (same_value s k (sym (keyed_row s a rows keyed e).1 ∙ spelt)))
  ]
    where
      same_value : (x y : String) → some x ≡ some y → x ≡ y
      same_value x y h = cc
