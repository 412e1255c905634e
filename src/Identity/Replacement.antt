-- ===== src/Identity/Replacement.antt =====
-- services/identity.py: _replace_roles.
use myota_platform.Base.Effect.{◌>>=◌, ◌>>◌, state, lift, check, modify, pure}
use myota_platform.Identity.Roles.{Platform, roles_of}
use myota_platform.Identity.Auth.{admin_authorize, RequestContext}
use myota_platform.Identity.Assignments.{
  normalized, new_roles, end_roles, global_count, assigns_global,
}
use myota_platform.Identity.Store.{audit, Handler, Role}
use myota_platform.Base.{◌++◌, ℕ, String, List, ◌&&◌, not, leb}
use myota_platform.Json.{Json}
use myota_platform.Identity.Sessions.{is_global_operator}
use myota_platform.Awards.Design.{value_error}

module _ (py : Platform) where
  -- _replace_roles
  unfoldable pub replace_roles :
      ℕ → RequestContext → (ℕ → String) → String → List Json → Handler (List Role)
  unfolding admin_authorize normalized new_roles end_roles global_count roles_of audit
  replace_roles now p new_id account_id assignments = do
    claims ← admin_authorize py now p "identity.roles.assign"
    store ← state
    as_ ← lift (normalized py claims store assignments)
    let loses = is_global_operator store account_id && not (assigns_global as_)
    check (not (loses && leb (global_count store) 1)) value_error
    let roles = new_roles py now new_id 0 account_id store as_
    modify (λ s. record s { roles = end_roles now account_id s.roles ++ roles })
    modify (audit now "identity.roles.replaced.v1" account_id)
    pure roles
