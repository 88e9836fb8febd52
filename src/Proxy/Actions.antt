-- ===== src/Proxy/Actions.antt =====
-- stdio_proxy.rs and `sync_queue`, a shared access at a time: the actions between which the tasks of
-- the runtime may be interleaved. Each task is where it stands, with the local values live there.
pub mod Client
pub mod Server
pub mod Sync
pub mod Queue
pub mod Rounds
pub mod Gates
pub mod Lines
pub mod Answers
