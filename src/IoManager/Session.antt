-- ===== src/IoManager/Session.antt =====
-- What _AdbIOManager (adb_device.py) does for one stream over a transport that delivers what the device
-- sends and records what the host writes.
pub mod Idle
pub mod Wires
pub mod Reads
