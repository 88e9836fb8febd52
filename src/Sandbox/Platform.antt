-- ===== src/Sandbox/Platform.antt =====
-- daemon/crates/accountability-sandbox/src/lib.rs: the enforcer of each platform.
use autonomous_agent_account.Base.{String, Option, none, some}
use autonomous_agent_account.Core.Ports.{SandboxEnforcer}
use autonomous_agent_account.Sandbox.Linux.{landlock}
use autonomous_agent_account.Sandbox.MacOs.{FileSystem, new, enforcer}

-- `target_os`
pub data Platform : Type 0 where
  macos : Platform
  linux : Platform
  unsupported_os : Platform

module _ {W : Type 0} (fs : FileSystem W) (temp_dir : String) where
  -- `none` is the panic on any other platform.
  unfoldable pub default_enforcer : Platform → Option (SandboxEnforcer W)
  unfolding landlock
  default_enforcer macos = some (enforcer fs (new temp_dir))
  default_enforcer linux = some landlock
  default_enforcer unsupported_os = none
