-- ===== src/Notifications.antt =====
-- services/event_consumer.py: the consumer of domain events behind the notifications.
pub mod Redaction
pub mod Diagnostics
pub mod Inbox
pub mod Deliveries
pub mod HandledOnce
