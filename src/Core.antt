-- ===== src/Core.antt =====
-- The crate accountability-core: the domain, its ports and the session of a proxy.
pub mod Policy
pub mod JsonRpc
pub mod Audit
pub mod Ports
pub mod Session
