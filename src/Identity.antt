-- ===== src/Identity.antt =====
-- services/identity.py: accounts, sessions, roles and callsigns.
pub mod RateLimit
pub mod Store
pub mod Definitions
pub mod Roles
pub mod Auth
pub mod Cleanup
pub mod Sessions
pub mod Login
pub mod Callsigns
pub mod Primary
pub mod ActivePrimary
pub mod Retired
pub mod Passwords
pub mod Assignments
pub mod Replacement
pub mod Accounts
pub mod RoleCode
pub mod Administration
pub mod Requests
pub mod Primitives
pub mod Preserved
pub mod PreservedElsewhere
pub mod PreservedRoles
pub mod Kept
pub mod Lasting
pub mod Grants
pub mod Permissions
pub mod GlobalRoles
pub mod AccountIds
pub mod LastGlobal
pub mod Revocation
pub mod DeadSessions
pub mod SingleUse
pub mod PasswordReset
pub mod LockOut
pub mod FifthFailure
