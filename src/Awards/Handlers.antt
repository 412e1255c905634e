-- ===== src/Awards/Handlers.antt =====
-- Each handler that moves an award of services/awards.py on makes one move of the life cycle.
use myota_platform.Awards.Lifecycle.{
  Store, submit_award, save_definition, Caller, review_award, retire_award, publish_award, update,
  Database, award_of,
}
use myota_platform.Base.{String, ◌≡◌, Option-cases, inl, arith, inr, refl}
use myota_platform.Json.{Fields, field, text, end, has_key, get, object, get_value}
use myota_platform.Base.Raise.{ok, Result-cases}
use myota_platform.Awards.Moves.{Saved, update-Saved, update-IsMove}
use myota_platform.Builtins.{Builtins, iso_time}
use myota_platform.Awards.Table.{IsKeyed}

module _ (db : Database) (caller : Caller) (id : String) (store : Store) (a : Fields)
    (after : Store) (keyed : IsKeyed db store.definitions) where
  pub submit-Saved :
      (now : String) → submit_award db caller now id store ≡ ok (a, after) → Saved db store after
  unfolding submit_award has_key get
  submit-Saved now h = elim (Result-cases (award_of db id store)) [
    | inr (x, e) ↦ ground arith
    | inl (award, e) ↦
        let changes = field "status" (text "UNDER_REVIEW") (field "submittedAt" (text now) end) in
        elim (Result-cases (save_definition db (update award changes) store)) [
          | inr (x, w) ↦ ground arith
          | inl (saved, w) ↦
              update-Saved db id award changes store saved after keyed e
                (update-IsMove award changes refl (ground arith)) w (ground arith)
        ]
  ]

  pub review-Saved :
      (now : String) (body : Fields)
      → review_award db caller now id body store ≡ ok (a, after)
      → Saved db store after
  unfolding review_award has_key get
  review-Saved now body h = elim (Result-cases (award_of db id store)) [
    | inr (x, e) ↦ ground arith
    | inl (award, e) ↦
        let review = object (
          field "reviewerId" (get_value "reviewerId" body)
            (field "note" (get_value "note" body) (field "reviewedAt" (text now) end))) in
        let changes = field "status" (get_value "decision" body) (field "review" review end) in
        elim (Result-cases (save_definition db (update award changes) store)) [
          | inr (x, w) ↦ ground arith
          | inl (saved, w) ↦
              update-Saved db id award changes store saved after keyed e
                (update-IsMove award changes refl (ground arith)) w (ground arith)
        ]
  ]

  pub retire-Saved :
      (body : Fields) → retire_award db caller id body store ≡ ok (a, after) → Saved db store after
  unfolding retire_award has_key get
  retire-Saved body h = elim (Result-cases (award_of db id store)) [
    | inr (x, e) ↦ ground arith
    | inl (award, e) ↦
        let changes = field "status" (text "RETIRED") (
          field "retiredAt" (get_value "retiredAt" body)
            (field "retiredBy" (get_value "retiredBy" body) end)) in
        elim (Result-cases (save_definition db (update award changes) store)) [
          | inr (x, w) ↦ ground arith
          | inl (saved, w) ↦
              update-Saved db id award changes store saved after keyed e
                (update-IsMove award changes refl (ground arith)) w (ground arith)
        ]
  ]

module _ (db : Database) (py : Builtins) (caller : Caller) (store : Store) (a : Fields)
    (after : Store) (keyed : IsKeyed db store.definitions) where
  pub publish-Saved :
      (now id : String) (body : Fields)
      → publish_award db py caller now id body store ≡ ok (a, after)
      → Saved db store after
  unfolding publish_award has_key get
  publish-Saved now id body h = elim (Result-cases (award_of db id store)) [
    | inr (x, e) ↦ ground arith
    | inl (award, e) ↦ elim (Option-cases (iso_time py (get_value "effectiveFrom" body))) [
      | inl t ↦ ground arith
      | inr (effective, t) ↦
          let changes = field "status" (text "PUBLISHED") (
            field "effectiveFrom" (text effective) (
              field "publisherId" (get_value "publisherId" body)
                (field "publishedAt" (text now) end))) in
          elim (Result-cases (save_definition db (update award changes) store)) [
            | inr (x, w) ↦ ground arith
            | inl (saved, w) ↦
                update-Saved db id award changes store saved after keyed e
                  (update-IsMove award changes refl (ground arith)) w (ground arith)
          ]
    ]
  ]
