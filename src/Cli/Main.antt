-- ===== src/Cli/Main.antt =====
-- `main` of main.rs as a whole: the policy is loaded, the command is prepared for the platform and
-- spawned, and the relay runs over the child. serde, the spawn and the relay are parameters.
use autonomous_agent_account.Base.{
  String, ◌≡◌, ◌⊎◌, inl, inr, refl, ap, ◌∙◌, Bool, Option, some, List, ◌∷◌, Result, ok, err,
}
use autonomous_agent_account.Core.Policy.{Policy}
use autonomous_agent_account.Sandbox.Profile.{generate_sb_profile}
use autonomous_agent_account.Sandbox.MacOs.{FileSystem}
use autonomous_agent_account.Sandbox.Platform.{Platform, macos, linux, unsupported_os}
use autonomous_agent_account.Cli.{
  Cli, policy_json, load_policy, plain_command, runtime_profile, sandboxed_command,
}

module _ {W Child E : Type 0} (fs : FileSystem W) (temp_dir : String)
    (from_str : String → Result Policy E)
    (spawn : String × List String → W → Result Child String × W)
    (relay : Child → W → Result Unit String × W) where
  -- The program and its arguments for a platform.
  unfoldable pub prepare :
      Platform → Policy → List String → W → Result (String × List String) String × W
  unfolding sandboxed_command plain_command
  prepare macos policy command w = sandboxed_command fs temp_dir policy command w
  prepare linux policy command w = (ok (plain_command command), w)
  prepare unsupported_os policy command w = (ok (plain_command command), w)

  -- The error of the relay is printed, and `main` succeeds all the same.
  abbrev pub relayed : Result Child String × W → Result Unit String × W
  relayed (err e, w) = (err e, w)
  relayed (ok child, w) = (ok tt, (relay child w).1)

  abbrev pub launch : Result (String × List String) String × W → Result Unit String × W
  launch (err e, w) = (err e, w)
  launch (ok command, w) = relayed (spawn command w)

  unfoldable pub main : Platform → Cli → W → Result Unit String × W
  unfolding prepare load_policy
  main platform cli w =
      launch (prepare platform (load_policy from_str (λ path. fs.read path w) cli) cli.command w)

  -- `main` does the same, in result and in what it leaves behind, for any two readings of the
  -- arguments that agree on --policy, --deny-net-all and the command: --allow-read, --allow-write,
  -- --allow-net and --audit-log change nothing, on any platform.
  pub main-flags :
      (platform : Platform) (cli other : Cli) (w : W)
      → other.policy ≡ cli.policy
      → other.deny_net_all ≡ cli.deny_net_all
      → other.command ≡ cli.command
      → main platform other w ≡ main platform cli w
  unfolding main load_policy policy_json
  main-flags platform cli other w p d c =
      ap (λ (x : Option String). reads x other.deny_net_all other.command) p
      ∙ ap (λ (x : Bool). reads cli.policy x other.command) d
      ∙ ap (λ (x : List String). reads cli.policy cli.deny_net_all x) c
    where
      reads : Option String → Bool → List String → Result Unit String × W
      reads path deny command =
          main platform (record cli { policy = path; deny_net_all = deny; command = command }) w

  -- On macOS, if the write of the profile fails, `main` ends with its error and spawns nothing;
  -- otherwise it spawns the command under sandbox-exec, in a world in which the profile file holds
  -- the profile generated from the policy that it loaded.
  pub main-IsConfined :
      (cli : Cli) (w : W)
      → let path = runtime_profile fs temp_dir in
        let profile = generate_sb_profile (load_policy from_str (λ path. fs.read path w) cli) in
        let (written, w') = fs.write path profile w in
        ((e : String) × (written ≡ err e) × (main macos cli w ≡ (err e, w')))
        ⊎ ((fs.read path w' ≡ some profile)
            × (main macos cli w
                ≡ relayed (spawn ("sandbox-exec", "-f" ∷ path ∷ "--" ∷ cli.command) w')))
  unfolding main prepare sandboxed_command
  main-IsConfined cli w = go (fs.write path profile w).0 refl
    where
      path : String
      path = runtime_profile fs temp_dir

      profile : String
      profile = generate_sb_profile (load_policy from_str (λ path. fs.read path w) cli)

      go :
          (r : Result Unit String)
          → (fs.write path profile w).0 ≡ r
          → ((e : String) × ((fs.write path profile w).0 ≡ err e)
              × (main macos cli w ≡ (err e, (fs.write path profile w).1)))
            ⊎ ((fs.read path (fs.write path profile w).1 ≡ some profile)
                × (main macos cli w
                    ≡ relayed (
                        spawn
                          ("sandbox-exec", "-f" ∷ path ∷ "--" ∷ cli.command)
                          (fs.write path profile w).1)))
      go (err e) h = inl (e, h, rw (h, main, prepare, sandboxed_command) refl)
      go (ok u) h =
          inr (fs.read-write path profile w h, rw (h, main, prepare, sandboxed_command) refl)
