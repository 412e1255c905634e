-- ===== src/Awards.antt =====
-- services/awards.py: the conditions of awards, their design and their life cycle.
pub mod Condition
pub mod Depth
pub mod Termination
pub mod Progress
pub mod Design
pub mod Lifecycle
pub mod Saving
pub mod Table
pub mod Moves
pub mod Drafts
pub mod Handlers
pub mod Saves
pub mod History
pub mod Spellings
