-- ===== src/Cli.antt =====
-- daemon/crates/accountability-cli/src/main.rs: the policy that `main` loads and the process that it
-- starts. clap's reading of the arguments and the logging are not part of it.
pub mod Launch
pub mod Main
use autonomous_agent_account.Base.{
  String, Bool, Option, none, some, List, [], ◌∷◌, unwrap_or, Result, ok, err,
}
use autonomous_agent_account.Core.Policy.{Policy, from_json}
use autonomous_agent_account.Sandbox.Profile.{generate_sb_profile}
use autonomous_agent_account.Sandbox.MacOs.{FileSystem, join}

-- The arguments. `main` reads `policy`, `deny_net_all` and `command`, and `verbose` for its log.
pub record Cli : Type 0 where
  pub policy : Option String
  pub allow_read : List String
  pub allow_write : List String
  pub allow_net : List String
  pub deny_net_all : Bool
  pub audit_log : Option String
  pub verbose : Bool
  pub command : List String

abbrev pub default_policy_json : String
default_policy_json = "{\"name\": \"default\", \"tool_policies\": {}}"

-- The policy when the text is no policy.
abbrev pub fallback : Bool → Policy
fallback deny_net_all = record {
  name = "fallback";
  description = none;
  default_deny = deny_net_all;
  tool_policies = [];
}

-- `read_to_string` is `none` on an error; `from_str` is serde's reading of a policy.
unfoldable pub policy_json : (String → Option String) → Cli → String
policy_json read_to_string cli = elim cli.policy [
  | some path ↦ unwrap_or (read_to_string path) default_policy_json
  | none ↦ default_policy_json
]

unfoldable pub load_policy :
    {E : Type 0} → (String → Result Policy E) → (String → Option String) → Cli → Policy
unfolding policy_json from_json
load_policy from_str read_to_string cli =
    elim (from_json from_str (policy_json read_to_string cli)) [
      | ok p ↦ p
      | err e ↦ fallback cli.deny_net_all
    ]

-- The program and its arguments off macOS.
unfoldable pub plain_command : List String → String × List String
plain_command [] = ("", [])
plain_command (cmd ∷ args) = (cmd, args)

module _ {W : Type 0} (fs : FileSystem W) (temp_dir : String) where
  open fs use {write}

  abbrev pub runtime_profile : String
  runtime_profile = join temp_dir "autonomous-agent-accountability-runtime.sb"

  -- The program and its arguments on macOS, once the profile is written; an error ends `main`.
  unfoldable pub sandboxed_command :
      Policy → List String → W → Result (String × List String) String × W
  sandboxed_command policy command w =
      let (written, w') = write runtime_profile (generate_sb_profile policy) w in
      elim written [
        | err e ↦ (err e, w')
        | ok u ↦ (ok ("sandbox-exec", "-f" ∷ runtime_profile ∷ "--" ∷ command), w')
      ]
