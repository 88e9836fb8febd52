-- ===== src/Tests.antt =====
-- Concrete instances of the code outside the repository, and runs of the model over them.
pub mod Instances
pub mod Cases
pub mod Relay
pub mod Log
pub mod Policies
pub mod Platforms
pub mod Run
pub mod Tasks
pub mod Actions
