-- ===== src/Tests/Platforms.antt =====
-- The theorems on the platforms and the command line at concrete inputs.
use autonomous_agent_account.Base.{
  String, ◌≡◌, ◌⊎◌, refl, true, Option, none, some, List, [], ◌∷◌, Result, ok, err,
}
use autonomous_agent_account.Core.Policy.{Policy}
use autonomous_agent_account.Sandbox.Profile.{generate_sb_profile}
use autonomous_agent_account.Sandbox.Platform.{linux, macos}
use autonomous_agent_account.Cli.{Cli, load_policy, runtime_profile}
use autonomous_agent_account.Cli.Main.{main, relayed, main-flags, main-IsConfined}
use autonomous_agent_account.Tests.Policies.{World, files, empty_world, policy}

abbrev server : List String
server = "npx" ∷ "server" ∷ []

abbrev arguments : Cli
arguments = record {
  policy = some "policy.json";
  allow_read = [];
  allow_write = [];
  allow_net = [];
  deny_net_all = true;
  audit_log = none;
  verbose = true;
  command = server;
}

abbrev parse_policy : String → Result Policy String
parse_policy text = ok policy

-- A file in the place of the policy that is none.
abbrev no_policy : String → Result Policy String
no_policy text = err "expected value"

abbrev found_file : String → Option String
found_file path = some "[]"

-- The same command with grants on the command line.
abbrev granting : Cli
granting = record arguments {
  allow_read = "/workspace/*" ∷ [];
  allow_net = "example.com" ∷ [];
  audit_log = some "audit.log";
}

-- A process is the program that it runs.
abbrev spawn : String × List String → World → Result String String × World
spawn (program, args) w = (ok program, w)

abbrev relay : String → World → Result Unit String × World
relay child w = (err "broken pipe", w)

main-flags_example :
    main files "/tmp" parse_policy spawn relay linux granting empty_world
    ≡ main files "/tmp" parse_policy spawn relay linux arguments empty_world
main-flags_example =
    main-flags files "/tmp" parse_policy spawn relay linux arguments granting empty_world refl refl
      refl

main-IsConfined_example :
    let path = runtime_profile files "/tmp" in
    let profile =
      generate_sb_profile
        (load_policy parse_policy (λ path. files.read path empty_world) arguments) in
    let (written, w') = files.write path profile empty_world in
    ((e : String) × (written ≡ err e)
      × (main files "/tmp" parse_policy spawn relay macos arguments empty_world ≡ (err e, w')))
    ⊎ ((files.read path w' ≡ some profile)
        × (main files "/tmp" parse_policy spawn relay macos arguments empty_world
            ≡ relayed files "/tmp" parse_policy spawn relay
                (spawn ("sandbox-exec", "-f" ∷ path ∷ "--" ∷ server) w')))
main-IsConfined_example =
    main-IsConfined files "/tmp" parse_policy spawn relay arguments empty_world
