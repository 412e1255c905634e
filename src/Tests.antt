-- ===== src/Tests.antt =====
-- Concrete data, and the theorems applied to it.
mod Data
mod Jobs
mod Outbox
mod Worker
mod Awards
mod Domain
mod Identity
mod Platform
mod Common
mod Accounts
mod Roles
mod Notifications
mod Retention
mod Programmes
