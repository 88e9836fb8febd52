-- ===== src/Cli/Launch.antt =====
-- What the process that `main` starts is confined by, and what `main` falls back to without a policy.
use autonomous_agent_account.Base.{String, ◌≡◌, some, List, ◌∷◌, ok, arith}
use autonomous_agent_account.Core.Policy.{Policy}
use autonomous_agent_account.Sandbox.Profile.{generate_sb_profile}
use autonomous_agent_account.Sandbox.MacOs.{FileSystem}
use autonomous_agent_account.Cli.{Cli, runtime_profile, sandboxed_command}

module _ {W : Type 0} (fs : FileSystem W) (temp_dir : String) where
  -- On macOS `main` starts the child only under sandbox-exec, with a profile file that then holds
  -- the profile generated from the policy, and with the given command unchanged behind it.
  pub sandboxed_command_lem :
      (policy : Policy) (command args : List String) (program : String) (w : W)
      → (sandboxed_command fs temp_dir policy command w).0 ≡ ok (program, args)
      → (program ≡ "sandbox-exec")
        × (args ≡ "-f" ∷ runtime_profile fs temp_dir ∷ "--" ∷ command)
        × (fs.read (runtime_profile fs temp_dir) (sandboxed_command fs temp_dir policy command w).1
            ≡ some (generate_sb_profile policy))
  unfolding sandboxed_command
  sandboxed_command_lem policy command args program w h =
      ground (arith, fs.read-write (runtime_profile fs temp_dir) (generate_sb_profile policy) w)
