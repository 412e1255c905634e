-- ===== src/Identity/Preserved.antt =====
-- What the parts of the handlers of services/identity.py keep, login, refresh and logout keep.
use myota_platform.Identity.Roles.{Platform}
use myota_platform.Identity.Store.{IdentityStore, Handler, Account, Credential}
use myota_platform.Base.{String, ℕ, Option}
use myota_platform.Identity.Primitives.{Primitives, steps, auth-Keeps}
use myota_platform.Identity.Auth.{RequestContext}
use myota_platform.Identity.Login.{admit, judge, authenticate, login, mint_for, refresh, logout}
use myota_platform.Base.Effect.{Keeps}
use myota_platform.Identity.Sessions.{NewIds}
use myota_platform.Json.{Fields, Json}

module _ (py : Platform) (P : IdentityStore → Type 0) (New : String → Type 0)
    (inv : Primitives py P New) where
  -- the handler keeps the property
  abbrev pub Stays : {A : Type 0} → Handler A → Type 0
  Stays m = Keeps P m

  admit-Keeps : (now : ℕ) (p : RequestContext) (body : Fields) → Stays (admit py now p body)
  unfolding admit
  admit-Keeps now p body = search (steps, inv.cleanup_kept, inv.limit_kept) depth 20

  judge-Keeps :
      (now : ℕ) (ids : NewIds) (password : Json) (found : Option Account) (c : Credential)
      → New ids.session_id
      → Stays (judge py now ids password found c)
  unfolding judge
  judge-Keeps now ids password found c n =
      search (steps, inv.fail_kept, inv.credential_kept, inv.audit_kept, inv.mint_kept) depth 30

  authenticate-Keeps :
      (now : ℕ) (ids : NewIds) (password : Json) (found : Option Account)
      → New ids.session_id
      → Stays (authenticate py now ids password found)
  unfolding authenticate
  authenticate-Keeps now ids password found n =
      search (steps, inv.credential_for_kept, judge-Keeps) depth 14

  pub login-Keeps :
      (now : ℕ) (p : RequestContext) (ids : NewIds) (body : Fields)
      → New ids.session_id
      → Stays (login py now p ids body)
  unfolding login
  login-Keeps now p ids body n = search (steps, admit-Keeps, authenticate-Keeps) depth 14

  pub mint_for-Keeps :
      (now : ℕ) (ids : NewIds) (claims : Fields)
      → New ids.session_id
      → Stays (mint_for py now ids claims)
  unfolding mint_for
  mint_for-Keeps now ids claims n = search (steps, inv.found_kept, inv.mint_kept) depth 14

  pub refresh-Keeps :
      (now : ℕ) (ids : NewIds) (body : Fields)
      → New ids.session_id
      → Stays (refresh py now ids body)
  unfolding refresh
  refresh-Keeps now ids body n = search (steps, inv.revoke_kept, mint_for-Keeps) depth 30

  pub logout-Keeps : (now : ℕ) (p : RequestContext) (body : Fields) → Stays (logout py now p body)
  unfolding logout
  logout-Keeps now p body =
      search (steps, inv.end_session_kept, auth-Keeps py P, inv.end_access_kept) depth 30
