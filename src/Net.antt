-- ===== src/Net.antt =====
-- play/net: bytes, frames, sessions and pulses.
pub mod Bytes
pub mod Serializer
pub mod LengthDelimited
pub mod Protocol
pub mod PlainProtocol
pub mod Session
pub mod Sodium
pub mod Secure
pub mod StreamProtocol
pub mod Server
pub mod Client
pub mod Pulse
pub mod PulseFb
pub mod Timer
pub mod Address
pub mod Tests
