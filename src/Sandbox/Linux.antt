-- ===== src/Sandbox/Linux.antt =====
-- daemon/crates/accountability-sandbox/src/landlock.rs and seccomp.rs: the Linux enforcers. They
-- log a line and do nothing else.
use autonomous_agent_account.Base.{ok}
use autonomous_agent_account.Core.Ports.{SandboxEnforcer}

module _ {W : Type 0} where
  unfoldable pub landlock : SandboxEnforcer W
  landlock = record {
    apply_policy = λ pid policy w. (ok tt, w);
    revoke = λ pid w. (ok tt, w);
    backend_name = "landlock";
  }

  unfoldable pub seccomp : SandboxEnforcer W
  seccomp = record {
    apply_policy = λ pid policy w. (ok tt, w);
    revoke = λ pid w. (ok tt, w);
    backend_name = "seccomp";
  }
