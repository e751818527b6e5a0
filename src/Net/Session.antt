-- ===== src/Net/Session.antt =====
-- play/net/session.hpp and session.ipp: the two halves of a TCP session.
pub mod Tests
pub mod Start
pub mod Receive
pub mod Chunks
pub mod Send
pub mod SendFrame
pub mod SendOrder
pub mod Close
