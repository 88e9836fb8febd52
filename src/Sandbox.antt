-- ===== src/Sandbox.antt =====
-- The crate accountability-sandbox: the enforcers of a policy. `target_os` chooses between them at
-- compile time.
pub mod Linux
pub mod Profile
pub mod MacOs
pub mod Platform
