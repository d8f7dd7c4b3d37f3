-- ===== src/Pairing.antt =====
-- pairing/: pairing with a device by a six-digit code.
pub mod Packets
pub mod Auth
pub mod Channel
pub mod Connection
pub mod Device
