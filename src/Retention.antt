-- ===== src/Retention.antt =====
-- services/import_retention.py: the objects of imports that may be deleted.
pub mod Source
pub mod Containment
