-- ===== src/Net/Pulse.antt =====
-- play/net/pulse.hpp and pulse.ipp: subscriptions, and calls that wait for a reply. A session is
-- named by the address that the code takes for its key, 0 for the null pointer. The handlers of the
-- application are outside: a receiver of theirs is a number.
pub mod Calls
pub mod Pending
pub mod Replies
pub mod Tests
pub mod Tree
pub mod Start
