-- ===== src/Outbox.antt =====
-- The transactional outbox: services/outbox_routing.py and services/outbox_worker.py.
pub mod Registry
pub mod Uuid
pub mod Routing
pub mod Command
pub mod Envelope
pub mod Relay
pub mod Claiming
pub mod Backoff
pub mod Publish
pub mod Accounting
pub mod NoLoss
