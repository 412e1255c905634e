-- ===== src/Awards/Depth.antt =====
-- How deep what a JSON value holds is nested.
use mathlib.Core.Path.{subst}
use myota_platform.Base.{
  ℕ, max, List, ◌≤◌, String, arith, All, ◌≡◌, map, some, ◌∷◌, [], Bool-cases, str_eq, inl, inr,
}
use myota_platform.Json.{
  get_or, depth, get, Items, characters, iterated, Json, items_depth, Fields, fields_depth, items,
  field, cons, text, array, nil, end, object, keys,
}

max_split : (a b n : ℕ) → max a b ≤ n → (a ≤ n) × (b ≤ n)
max_split a b n h = (omega arith, omega arith)

pub depth-get_or :
    (k : String) (d : Json) (fs : Fields) (n : ℕ)
    → depth d ≤ n
    → fields_depth fs ≤ n
    → depth (get_or k d fs) ≤ n
unfolding get_or get depth
depth-get_or k d end n hd h = hd
depth-get_or k d (field j v fs) n hd h =
    let both = max_split (depth v) (fields_depth fs) n h in
    elim (Bool-cases (str_eq j k)) [
      | inl e ↦ rw (depth, get_or, get, e) both.0
      | inr e ↦ rw (depth, get_or, get, e) (depth-get_or k d fs n hd both.1)
    ]

depth-items : (vs : Items) (n : ℕ) → items_depth vs ≤ n → All (λ x. depth x ≤ n) (items vs)
unfolding depth
depth-items nil n h = tt
depth-items (cons v vs) n h =
    let both = max_split (depth v) (items_depth vs) n h in (both.0, depth-items vs n both.1)

depth-characters : (s : String) (n : ℕ) → 1 ≤ n → All (λ x. depth x ≤ n) (characters s)
unfolding depth characters
depth-characters String.[] n h = tt
depth-characters (String.◌∷◌ c s) n h = (h, depth-characters s n h)

depth-keys : (ks : List String) (n : ℕ) → 1 ≤ n → All (λ x. depth x ≤ n) (map text ks)
unfolding depth
depth-keys [] n h = tt
depth-keys (k ∷ ks) n h = (h, depth-keys ks n h)

-- what a loop over a value meets is nested no deeper than the value
pub depth-iterated :
    (v : Json) (n : ℕ)
    → depth v ≤ n
    → (xs : List Json) → iterated v ≡ some xs
    → All (λ x. depth x ≤ n) xs
unfolding depth iterated
depth-iterated (array vs) n h xs e =
    let same : items vs ≡ xs = ground arith in
    subst (All (λ x. depth x ≤ n)) same (depth-items vs n (omega arith))
depth-iterated (text s) n h xs e =
    let same : characters s ≡ xs = ground arith in
    subst (All (λ x. depth x ≤ n)) same (depth-characters s n h)
depth-iterated (object fs) n h xs e =
    let same : map text (keys fs) ≡ xs = ground arith in
    subst (All (λ x. depth x ≤ n)) same (depth-keys (keys fs) n (omega arith))
depth-iterated _ n h xs e = ground arith
