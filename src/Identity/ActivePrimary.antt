-- ===== src/Identity/ActivePrimary.antt =====
-- The callsign handlers of services/identity.py keep the primary callsign active.
use myota_platform.Base.Effect.{Keeps-Ensures, pure-Keeps, modify-Ensures, state-Keeps}
use myota_platform.Base.{
  refl, true, false, none, some, inl, inr, arith, [], String, ℕ, ◌≡◌, Option, Option-cases, eq_refl,
  str_eq, eq_iff, ◌∷◌, List, all, find_row-key, find_row,
}
use myota_platform.Base.Raise.{ok}
use myota_platform.Identity.Callsigns.{
  with_callsign, without_callsign, replaced_primary, append_callsign, add_callsign, set_primary,
  is_retired, change_callsign, retired, is_active, add_evidence, verify_callsign, retire_callsign,
  callsign_of,
}
use myota_platform.Identity.Roles.{Platform}
use myota_platform.Identity.Store.{Callsign, Account, IdentityStore}
use myota_platform.Json.{Json, Fields, get_or, text, get_value}
use myota_platform.Identity.Auth.{RequestContext}
use myota_platform.Outbox.Routing.{is_text}
use myota_platform.Identity.Primary.{
  has_active_primary, Kept, is_active-change, lifted, is_active-append, passed, put_account-Ensures,
  auth-Ensures, event-Ensures, going, account-Ensures, Good, after_callsign, after_callsigns,
  CallsignRequest, is_proper, add, make_primary, give_evidence, verify, retire,
}

with_callsign-active :
    (now : ℕ) (c : Callsign) (a : Account)
    → is_retired c ≡ false
    → has_active_primary a ≡ true
    → has_active_primary (with_callsign now c a) ≡ true
unfolding with_callsign
with_callsign-active now c a n h = elim (Option-cases a.primary_callsign_id) [
  | inl e ↦ ground (arith, is_active-append c.id a.callsigns c, eq_refl c.id)
  | inr (k, e) ↦ ground (arith, is_active-append k a.callsigns c)
]

-- a change that retires nothing
keeps_active :
    (id : String) (f : Callsign → Callsign) (a : Account)
    → ((c : Callsign) → (f c).id ≡ c.id)
    → ((c : Callsign) → is_retired (f c) ≡ true → is_retired c ≡ true)
    → has_active_primary a ≡ true
    → has_active_primary (record a { callsigns = change_callsign id f a.callsigns }) ≡ true
keeps_active id f a same g h = elim (Option-cases a.primary_callsign_id) [
  | inl e ↦ rw e refl
  | inr (k, e) ↦ rw e (is_active-change k id f same (inr g) a.callsigns (rw e at h))
]

replaced_primary-active :
    (id k : String) (replacement : Json) (a : Account)
    → is_text replacement id ≡ false
    → replaced_primary id replacement a ≡ ok (some k)
    → has_active_primary a ≡ true
    → (str_eq id k ≡ false) × (is_active k a.callsigns ≡ true)
unfolding replaced_primary
replaced_primary-active id k (text r) a n e h =
    ground (arith, eq_iff r id, eq_iff id k, eq_iff k id)
replaced_primary-active id k _ a n e h = ground (arith, eq_iff id k, eq_iff k id)

without_callsign-active :
    (now : ℕ) (id : String) (replacement valid_to : Json) (a : Account) (primary : Option String)
    → is_text replacement id ≡ false
    → replaced_primary id replacement a ≡ ok primary
    → has_active_primary a ≡ true
    → has_active_primary (without_callsign now id valid_to primary a) ≡ true
unfolding without_callsign
without_callsign-active now id replacement valid_to a none n e h = refl
without_callsign-active now id replacement valid_to a (some k) n e h =
    let (other, active) = replaced_primary-active id k replacement a n e h in
    is_active-change k id (retired now valid_to) (λ c. refl) (inl other) a.callsigns active

callsign_of-id : (id : String) (a : Account) (c : Callsign) → callsign_of id a ≡ ok c → c.id ≡ id
callsign_of-id id a c e = elim (Option-cases (find_row (λ d. d.id) id a.callsigns)) [
  | inl m ↦ ground arith
  | inr (d, m) ↦
      let p : d ≡ c = ground arith in rw (← p) (find_row-key (λ d. d.id) id a.callsigns {x = d} m)
]

not_own :
    (v : Json) (id : String) (a : Account) (c : Callsign)
    → callsign_of id a ≡ ok c
    → is_text v id ≡ false
    → is_text v c.id ≡ false
not_own v id a c e n = rw (callsign_of-id id a c e) n

module _ (py : Platform) where
  append-Kept :
      (now : ℕ) (new_id : String) (a : Account) (value status source valid_from valid_to : Json)
      → is_text status "RETIRED" ≡ false
      → has_active_primary a ≡ true
      → Kept (append_callsign py now new_id a value status source valid_from valid_to)
  unfolding append_callsign
  append-Kept now new_id a value status source valid_from valid_to n h = lifted _ λ given e.
      lifted _ λ u e1. lifted _ λ u e2.
        passed (put_account-Ensures _ (with_callsign-active now _ a n h))
          λ u. passed (event-Ensures _ _) λ u. Keeps-Ensures Good (pure-Keeps Good _)

  add-Kept :
      (now : ℕ) (p : RequestContext) (new_id account_id : String) (body : Fields)
      → is_text (get_or "status" (text "UNVERIFIED") body) "RETIRED" ≡ false
      → Kept (add_callsign py now p new_id account_id body)
  unfolding add_callsign
  add-Kept now p new_id account_id body n = lifted _ λ u e.
      passed (auth-Ensures py now p [] (some account_id)) λ u.
        going (λ a. has_active_primary a ≡ true) (account-Ensures account_id)
          λ a g. append-Kept now new_id a _ _ _ _ _ n g

  set_primary-Kept :
      (now : ℕ) (p : RequestContext) (account_id : String) (body : Fields)
      → Kept (set_primary py now p account_id body)
  unfolding set_primary
  set_primary-Kept now p account_id body = lifted _ λ u e.
      passed (auth-Ensures py now p [] (some account_id)) λ u.
        going (λ a. has_active_primary a ≡ true) (account-Ensures account_id)
          λ a g. lifted _ λ id e1.
            lifted _ λ u e2. passed (put_account-Ensures _ (ground arith)) λ u. event-Ensures _ _

  evidence-Kept :
      (now : ℕ) (p : RequestContext) (new_id account_id id : String) (body : Fields)
      → Kept (add_evidence py now p new_id account_id id body)
  unfolding add_evidence
  evidence-Kept now p new_id account_id id body = lifted _ λ u e.
      passed (auth-Ensures py now p [] (some account_id)) λ u.
        going (λ a. has_active_primary a ≡ true) (account-Ensures account_id)
          λ a g. lifted _ λ c e1. passed (modify-Ensures Good _ (λ s h. h)) λ u.
            passed (put_account-Ensures _ (keeps_active c.id _ a (λ d. refl) (λ d h. h) g))
              λ u. passed (event-Ensures _ _) λ u. Keeps-Ensures Good (pure-Keeps Good _)

  verify-Kept :
      (now : ℕ) (p : RequestContext) (account_id id : String) (body : Fields)
      → Kept (verify_callsign py now p account_id id body)
  unfolding verify_callsign
  verify-Kept now p account_id id body =
      passed (auth-Ensures py now p ("callsign.verify" ∷ []) none) λ u.
        going (λ a. has_active_primary a ≡ true) (account-Ensures account_id)
          λ a g. lifted _ λ c e1. passed (Keeps-Ensures Good (state-Keeps Good)) λ store.
            lifted _ λ u e2.
              passed (put_account-Ensures _ (keeps_active c.id _ a (λ d. refl) (λ d h. cc) g))
                λ u. passed (modify-Ensures Good _ (λ s h. h)) λ u. event-Ensures _ _

  retire-Kept :
      (now : ℕ) (p : RequestContext) (account_id id : String) (body : Fields)
      → is_text (get_value "newPrimaryCallsignId" body) id ≡ false
      → Kept (retire_callsign py now p account_id id body)
  unfolding retire_callsign
  retire-Kept now p account_id id body n = passed (auth-Ensures py now p [] (some account_id)) λ u.
      going (λ a. has_active_primary a ≡ true) (account-Ensures account_id)
        λ a g. lifted (callsign_of id a) λ c e1.
          lifted (replaced_primary c.id (get_value "newPrimaryCallsignId" body) a) λ primary e2.
            let other = not_own (get_value "newPrimaryCallsignId" body) id a c e1 n in
            passed
              (put_account-Ensures _ (
                without_callsign-active now c.id (get_value "newPrimaryCallsignId" body) _ a primary
                  other e2 g))
              λ u. event-Ensures _ _

  after-Good :
      (r : CallsignRequest) (store : IdentityStore)
      → is_proper r ≡ true
      → Good store
      → Good (after_callsign py r store)
  unfolding after_callsign
  after-Good (add now p new_id account_id body) store n g =
      (add-Kept now p new_id account_id body (ground arith)).kept store g
  after-Good (make_primary now p account_id body) store n g =
      (set_primary-Kept now p account_id body).kept store g
  after-Good (give_evidence now p new_id account_id id body) store n g =
      (evidence-Kept now p new_id account_id id body).kept store g
  after-Good (verify now p account_id id body) store n g =
      (verify-Kept now p account_id id body).kept store g
  after-Good (retire now p account_id id body) store n g =
      (retire-Kept now p account_id id body (ground arith)).kept store g

  -- The primary callsign of every account is one of its callsigns that is not retired, whatever requests on
  -- callsigns are served, also where they raise; if that held at first, no request adds a callsign as
  -- already retired, and none retires a callsign with itself as the new primary one.
  pub primary_stays_active :
      (rs : List CallsignRequest) (store : IdentityStore)
      → all is_proper rs ≡ true
      → Good store
      → Good (after_callsigns py store rs)
  unfolding after_callsigns
  primary_stays_active [] store n g = g
  primary_stays_active (r ∷ rs) store n g =
      primary_stays_active rs (after_callsign py r store) (ground arith)
        (after-Good r store (ground arith) g)
