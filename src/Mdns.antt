-- ===== src/Mdns.antt =====
-- The package mdns: discovery of the services that devices advertise on the network.
pub mod Names
pub mod Discovery
pub mod Async
