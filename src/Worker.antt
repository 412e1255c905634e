-- ===== src/Worker.antt =====
-- services/activity_worker.py: the consumer of the Activity work commands.
pub mod Contract
pub mod Delivery
pub mod Handle
pub mod Acknowledgement
pub mod Completion
