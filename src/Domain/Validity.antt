-- ===== src/Domain/Validity.antt =====
-- When evaluate_activation_rules of services/activity_domain.py finds an activation valid.
use mathlib.Core.Path.{subst}
use myota_platform.Base.{
  List, String, ◌≡◌, ℕ, some, ◌++◌, [], Bool, ◌≤◌, ◌∷◌, true, All, not, length, arith, Option-cases,
  ◌||◌, refl, Bool-cases, inl, inr, ◌&&◌,
}
use myota_platform.Domain.Evaluation.{
  Terms, name_violations, table_violations, time_violations, count_violations, in_names, report_of,
  evaluate_activation_rules, violations_of, Report, terms_of,
}
use myota_platform.Json.{Fields, Json, get_value, truthy}
use myota_platform.Outbox.Command.{is_nonempty_list}
use myota_platform.Builtins.{Builtins}
use myota_platform.Base.Raise.{ok, Result-cases}

-- A value that the table allows: the table is empty, the value is not set, or it is in the table.
abbrev pub allows : List String → Json → Bool
allows names v = not (is_nonempty_list names) || (not (truthy v) || in_names v names)

-- The rules of an activation, apart from the code.
pub record IsWithin (t : Terms) (qsos : List Fields) : Type 0 where
  pub in_order : (e : ℕ) → t.ended ≡ some e → t.started ≤ e
  pub in_time : (e x : ℕ) → t.ended ≡ some e → t.expires ≡ some x → e ≤ x
  pub enough : (least : ℕ) → t.minimum ≡ some least → least ≤ length qsos
  pub bands_allowed : All (λ q. allows t.bands (get_value "band" q) ≡ true) qsos
  pub modes_allowed : All (λ q. allows t.modes (get_value "mode" q) ≡ true) qsos

append_empty :
    (xs ys : List String)
    → (xs ++ ys ≡ [] → (xs ≡ []) × (ys ≡ [])) × (xs ≡ [] → ys ≡ [] → xs ++ ys ≡ [])
append_empty [] ys = ((λ h. (refl, h)), λ p q. q)
append_empty (x ∷ xs) ys = ((λ h. ground arith), λ p q. ground arith)

names_empty :
    (key : String) (names : List String) (qs : List Fields)
    → is_nonempty_list names ≡ true
    → (name_violations key names qs ≡ [] → All (λ q. allows names (get_value key q) ≡ true) qs)
      × (All (λ q. allows names (get_value key q) ≡ true) qs → name_violations key names qs ≡ [])
unfolding name_violations
names_empty key names [] n = ((λ h. tt), λ h. refl)
names_empty key names (q ∷ qs) n =
    let rest = names_empty key names qs n in
    elim (Bool-cases (truthy (get_value key q) && not (in_names (get_value key q) names))) [
      | inl b ↦ (
        (λ h. (ground arith, rest.0 (ground arith))),
        λ h. let first_allowed = h.0 in ground arith,
      )
      | inr b ↦ ((λ h. (ground arith, rest.0 (rw b at h))), λ h. rw b (rest.1 h.1))
    ]

table_empty :
    (key : String) (names : List String) (qs : List Fields)
    → (table_violations key names qs ≡ [] → All (λ q. allows names (get_value key q) ≡ true) qs)
      × (All (λ q. allows names (get_value key q) ≡ true) qs → table_violations key names qs ≡ [])
unfolding table_violations
table_empty key [] qs = ((λ h. every_allowed qs), λ h. refl)
  where
    every_allowed : (qs : List Fields) → All (λ q. allows [] (get_value key q) ≡ true) qs
    every_allowed [] = tt
    every_allowed (q ∷ qs) = (refl, every_allowed qs)
table_empty key (n ∷ names) qs = names_empty key (n ∷ names) qs refl

time_empty :
    (t : Terms)
    → (time_violations t ≡ []
        → ((e : ℕ) → t.ended ≡ some e → t.started ≤ e)
          × ((e x : ℕ) → t.ended ≡ some e → t.expires ≡ some x → e ≤ x))
      × (((e : ℕ) → t.ended ≡ some e → t.started ≤ e)
          → ((e x : ℕ) → t.ended ≡ some e → t.expires ≡ some x → e ≤ x)
          → time_violations t ≡ [])
unfolding time_violations
time_empty t = elim (Option-cases t.ended) [
  | inl n ↦ (((λ h. ((λ e p. ground arith), λ e x p q. ground arith))), λ a b. rw n refl)
  | inr (e, n) ↦ elim (Option-cases t.expires) [
    | inl m ↦ (
      (λ h. ((λ e' p. ground arith), λ e' x p q. ground arith)),
      λ a b. let c = a e n in ground arith,
    )
    | inr (x, m) ↦ (
      (λ h. ((λ e' p. ground arith), λ e' x' p q. ground arith)),
      λ a b. let c = a e n in let d = b e x n m in ground arith,
    )
  ]
]

count_empty :
    (t : Terms) (n : ℕ)
    → (count_violations t n ≡ [] → (least : ℕ) → t.minimum ≡ some least → least ≤ n)
      × (((least : ℕ) → t.minimum ≡ some least → least ≤ n) → count_violations t n ≡ [])
unfolding count_violations
count_empty t n = elim (Option-cases t.minimum) [
  | inl m ↦ ((λ h least p. ground arith), λ a. rw m refl)
  | inr (least, m) ↦ ((λ h l p. ground arith), λ a. let b = a least m in ground arith)
]

empty_iff :
    (xs : List String)
    → (not (is_nonempty_list xs) ≡ true → xs ≡ []) × (xs ≡ [] → not (is_nonempty_list xs) ≡ true)
empty_iff [] = ((λ h. refl), λ h. refl)
empty_iff (x ∷ xs) = ((λ h. ground arith), λ h. ground arith)

report_valid :
    (t : Terms) (qs : List Fields)
    → ((report_of t qs).valid ≡ true → IsWithin t qs)
      × (IsWithin t qs → (report_of t qs).valid ≡ true)
unfolding report_of violations_of
report_valid t qs =
    let bands = table_violations "band" t.bands qs in
    let modes = table_violations "mode" t.modes qs in
    let counts = count_violations t (length qs) in
    let times = time_violations t in
    let outer = append_empty times (counts ++ (bands ++ modes)) in
    let middle = append_empty counts (bands ++ modes) in
    let inner = append_empty bands modes in
    let whole = empty_iff (times ++ (counts ++ (bands ++ modes))) in
    (
      (λ h.
          let (a, rest) = outer.0 (whole.0 h) in
          let (b, names) = middle.0 rest in
          let (c, d) = inner.0 names in
          let (ordered, timely) = (time_empty t).0 a in
          record {
            in_order = ordered;
            in_time = timely;
            enough = (count_empty t (length qs)).0 b;
            bands_allowed = (table_empty "band" t.bands qs).0 c;
            modes_allowed = (table_empty "mode" t.modes qs).0 d;
          }),
      λ w. whole.1 (
          outer.1 ((time_empty t).1 w.in_order w.in_time) (
            middle.1 ((count_empty t (length qs)).1 w.enough) (
              inner.1 ((table_empty "band" t.bands qs).1 w.bands_allowed)
                ((table_empty "mode" t.modes qs).1 w.modes_allowed)))),
    )

-- An activation is found valid exactly when it keeps its rules: it does not end before it starts or after
-- its validity, it has the least number of contacts, and every contact's band and mode, where they are
-- set, are among the allowed ones, where the rules name any; the report counts the contacts.
pub valid_iff-IsWithin :
    (py : Builtins) (activation : Fields) (qsos : List Fields) (report : Report)
    → evaluate_activation_rules py activation qsos ≡ ok report
    → (t : Terms) × (terms_of py activation ≡ ok t)
      × (report.valid ≡ true → IsWithin t qsos)
      × (IsWithin t qsos → report.valid ≡ true)
      × (report.qso_count ≡ length qsos)
unfolding evaluate_activation_rules
valid_iff-IsWithin py activation qsos report h = elim (Result-cases (terms_of py activation)) [
  | inr (x, e) ↦ ground arith
  | inl (t, e) ↦
      let same : report_of t qsos ≡ report = ground arith in
      let both = report_valid t qsos in
      let counted : (report_of t qsos).qso_count ≡ length qsos = unfold report_of in refl in
      let P : Report → Type 0 = λ r.
        (r.valid ≡ true → IsWithin t qsos)
        × (IsWithin t qsos → r.valid ≡ true)
        × (r.qso_count ≡ length qsos) in
      let judged : P report = subst P same (both.0, both.1, counted) in
      (t, e, judged.0, judged.1, judged.2)
]
