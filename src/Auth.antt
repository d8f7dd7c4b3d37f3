-- ===== src/Auth.antt =====
-- Keys: the files that auth/keygen.py writes and reads.
pub mod Base64
pub mod Keygen
pub mod KeyFiles
