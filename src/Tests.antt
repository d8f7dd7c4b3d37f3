-- ===== src/Tests.antt =====
-- The theorems applied to concrete inputs, and runs of the definitions.
mod Store
mod Wire
mod Io
mod Device
mod Termination
mod FileSync
mod Pairing
mod Keys
mod Sockets
mod Tasks
mod PairDevice
mod Session
mod Download
mod AsyncSockets
mod Discovery
mod Usb
