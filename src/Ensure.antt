-- ===== src/Ensure.antt =====
-- play/ensure: paths, acts, bots and the blackboard.
pub mod Path
pub mod Acts
pub mod Blackboard
pub mod Bots
