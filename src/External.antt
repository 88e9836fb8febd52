-- ===== src/External.antt =====
-- The third-party crates that the program calls, each as a record of the functions called.
pub mod Json
pub mod Crypto
pub mod Http
