-- ===== src/Proxy.antt =====
-- daemon/crates/accountability-proxy/src/stdio_proxy.rs: the relay between the client and the child
-- process, with the interception of tool calls.
pub mod Decision
pub mod Request
pub mod State
pub mod Client
pub mod Server
pub mod Relay
pub mod Actions
pub mod Tasks
