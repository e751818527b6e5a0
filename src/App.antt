-- ===== src/App.antt =====
-- play/app: containers of actors and of sessions with their indexes, services and acts.
pub mod Index
pub mod ActorContainer
pub mod SessionContainer
pub mod Services
pub mod Tests
