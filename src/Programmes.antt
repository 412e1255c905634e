-- ===== src/Programmes.antt =====
-- services/programmes.py: the content of programmes.
pub mod Content
pub mod Publication
pub mod Finality
pub mod Course
