-- ===== src/Domain.antt =====
-- services/activity_domain.py: the rules of activations and contacts.
pub mod Words
pub mod Normalise
pub mod Activation
pub mod Evaluation
pub mod Validity
