-- ===== src/Base/Effect.antt =====
-- Handlers that change a state and may raise: a raised exception keeps the changes made before it.
use myota_platform.Base.Raise.{Result, ok, err, guard}
use mathlib.Core.Path.{subst, ap}
use myota_platform.Base.{true, false, Bool, if◌then◌else◌, true, ◌≡◌, refl}

module _ {S E : Type 0} where
  unfoldable pub pure : {A : Type 0} → A → S → Result E A × S
  pure a = λ s. (ok a, s)

  unfoldable pub raise : {A : Type 0} → E → S → Result E A × S
  raise e = λ s. (err e, s)

  -- how a handler goes on with a result
  abbrev pub onward : {A B : Type 0} → (A → S → Result E B × S) → Result E A × S → Result E B × S
  onward f (ok a, s) = f a s
  onward f (err e, s) = (err e, s)

  infixl 5 ◌>>=◌ ◌>>◌
  unfoldable pub ◌>>=◌ :
      {A B : Type 0} → (S → Result E A × S) → (A → S → Result E B × S) → S → Result E B × S
  m >>= f = λ s. onward f (m s)

  abbrev pub ◌>>◌ :
      {A B : Type 0} → (S → Result E A × S) → (S → Result E B × S) → S → Result E B × S
  m >> k = m >>= λ _. k

  unfoldable pub state : S → Result E S × S
  state = λ s. (ok s, s)

  unfoldable pub modify : (S → S) → S → Result E (Unit {0}) × S
  modify f = λ s. (ok tt, f s)

  unfoldable pub lift : {A : Type 0} → Result E A → S → Result E A × S
  lift r = λ s. (r, s)

  abbrev pub check : Bool → E → S → Result E (Unit {0}) × S
  check b e = lift (guard b e)

  -- whatever a handler comes to, it keeps a property of the state
  pub record Keeps (P : S → Type 0) {A : Type 0} (m : S → Result E A × S) : Type 0 where
    pub kept : (s : S) → P s → P (m s).1

  module _ (P : S → Type 0) {A : Type 0} where
    pub bind-Keeps :
        {B : Type 0} {m : S → Result E A × S} {f : A → S → Result E B × S}
        → Keeps P m
        → ((a : A) → Keeps P (f a))
        → Keeps P (m >>= f)
    unfolding ◌>>=◌
    bind-Keeps {B} {m} {f} km kf = record { kept = λ s h. go (m s) (km.kept s h) }
      where
        go : (r : Result E A × S) → P r.1 → P (onward f r).1
        go (ok a, s) h = (kf a).kept s h
        go (err e, s) h = h

    pub lift-Keeps : (r : Result E A) → Keeps P (lift r)
    unfolding lift
    lift-Keeps r = record { kept = λ s h. h }

    -- a result that is at hand
    pub lift_ok-Keeps :
        {B : Type 0} (f : A → S → Result E B × S) (a : A)
        → Keeps P (f a)
        → Keeps P (lift (ok a) >>= f)
    unfolding ◌>>=◌ lift
    lift_ok-Keeps f a k = record { kept = k.kept }

    pub if-Keeps :
        (b : Bool) {m n : S → Result E A × S} → Keeps P m → Keeps P n → Keeps P (if b then m else n)
    if-Keeps true km kn = km
    if-Keeps false km kn = kn

  -- what a first part gives is known where the handler goes on from it
  pub lift_bind-Keeps :
      (P : S → Type 0) {A B : Type 0} (r : Result E A) {f : A → S → Result E B × S}
      → ((a : A) → r ≡ ok a → Keeps P (f a))
      → Keeps P (lift r >>= f)
  unfolding ◌>>=◌ lift
  lift_bind-Keeps P (ok a) k = record { kept = (k a refl).kept }
  lift_bind-Keeps P (err e) k = record { kept = λ s h. h }

  pub state_bind-Keeps :
      (P : S → Type 0) {B : Type 0} {f : S → S → Result E B × S}
      → ((s : S) → P s → Keeps P (f s))
      → Keeps P (state >>= f)
  unfolding ◌>>=◌ state
  state_bind-Keeps P k = record { kept = λ s h. (k s h).kept s h }

  pub state-Keeps : (P : S → Type 0) → Keeps P state
  unfolding state
  state-Keeps P = record { kept = λ s h. h }

  pub modify-Keeps : (P : S → Type 0) (f : S → S) → ((s : S) → P s → P (f s)) → Keeps P (modify f)
  unfolding modify
  modify-Keeps P f k = record { kept = k }

  -- a handler keeps a property of the state, and its result has a property of its own
  pub record Ensures (P : S → Type 0) {A : Type 0} (Q : A → Type 0) (m : S → Result E A × S)
      : Type 0 where
    pub kept : (s : S) → P s → P (m s).1
    pub gives : (s : S) (a : A) → P s → (m s).0 ≡ ok a → Q a

  module _ (P : S → Type 0) {A : Type 0} where
    pub bind-Ensures :
        {B : Type 0} {m : S → Result E A × S} {f : A → S → Result E B × S} (Q : A → Type 0)
        (R : B → Type 0)
        → Ensures P Q m
        → ((a : A) → Q a → Ensures P R (f a))
        → Ensures P R (m >>= f)
    unfolding ◌>>=◌
    bind-Ensures {B} {m} {f} Q R em ef = record {
      kept = λ s h. go (m s) (em.kept s h) (λ a. em.gives s a h);
      gives = λ s b h. back b (m s) (em.kept s h) (λ a. em.gives s a h);
    }
      where
        go : (r : Result E A × S) → P r.1 → ((a : A) → r.0 ≡ ok a → Q a) → P (onward f r).1
        go (ok a, s) h q = (ef a (q a refl)).kept s h
        go (err e, s) h q = h

        back :
            (b : B) (r : Result E A × S)
            → P r.1
            → ((a : A) → r.0 ≡ ok a → Q a)
            → (onward f r).0 ≡ ok b
            → R b
        back b (ok a, s) h q e = (ef a (q a refl)).gives s b h e
        back b (err x, s) h q e = cc

    pub lift-Ensures : (r : Result E A) → Ensures P (λ a. r ≡ ok a) (lift r)
    unfolding lift
    lift-Ensures r = record { kept = λ s h. h; gives = λ s a h e. e }

  pub modify-Ensures :
      (P : S → Type 0) (f : S → S)
      → ((s : S) → P s → P (f s))
      → Ensures P (λ u. Unit {0}) (modify f)
  unfolding modify
  modify-Ensures P f k = record { kept = k; gives = λ s a h e. tt }

  pub pure-Keeps : (P : S → Type 0) {A : Type 0} (a : A) → Keeps P (pure a)
  unfolding pure
  pure-Keeps P a = record { kept = λ s h. h }

  pub raise-Keeps : (P : S → Type 0) {A : Type 0} (e : E) → Keeps P (raise {A = A} e)
  unfolding raise
  raise-Keeps P e = record { kept = λ s h. h }

  pub pure-Ensures :
      (P : S → Type 0) {A : Type 0} (Q : A → Type 0) (a : A) → Q a → Ensures P Q (pure a)
  unfolding pure
  pure-Ensures P Q a q = record {
    kept = λ s h. h;
    gives = λ s b h e. let p : a ≡ b = cc in subst Q p q;
  }

  pub Keeps-Ensures :
      (P : S → Type 0) {A : Type 0} {m : S → Result E A × S}
      → Keeps P m
      → Ensures P (λ a. Unit {0}) m
  Keeps-Ensures P k = record { kept = k.kept; gives = λ s a h e. tt }

  -- a handler whose first part returns goes on from there
  pub bind-ok :
      {A B : Type 0} (m : S → Result E A × S) (f : A → S → Result E B × S) (s : S) (a : A)
      → (m s).0 ≡ ok a
      → (m >>= f) s ≡ f a (m s).1
  unfolding ◌>>=◌
  bind-ok m f s a h = go (m s) h
    where
      go : (r : Result E _ × S) → r.0 ≡ ok a → onward f r ≡ f a r.1
      go (ok b, t) e = let p : b ≡ a = cc in ap (λ c. f c t) p
      go (err x, t) e = cc

  pub bind-err :
      {A B : Type 0} (m : S → Result E A × S) (f : A → S → Result E B × S) (s : S) (e : E)
      → (m s).0 ≡ err e
      → ((m >>= f) s).0 ≡ err e
  unfolding ◌>>=◌
  bind-err m f s e h = go (m s) h
    where
      go : (r : Result E _ × S) → r.0 ≡ err e → (onward f r).0 ≡ err e
      go (ok b, t) h = cc
      go (err x, t) h = cc
