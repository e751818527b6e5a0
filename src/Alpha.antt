-- ===== src/Alpha.antt =====
-- play/sample/alpha/app: a chat server of front and back processes.
pub mod Messages
pub mod Room
pub mod RoomRunner
pub mod Lobby
pub mod UserMaster
pub mod RoomMaster
pub mod Startup
