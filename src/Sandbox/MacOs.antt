-- ===== src/Sandbox/MacOs.antt =====
-- daemon/crates/accountability-sandbox/src/macos.rs: the macOS enforcer, which keeps a profile file
-- for each process. The file system is `FileSystem`, with the documented behaviour of `std::fs`.
pub mod Files
use autonomous_agent_account.Base.{
  ℕ, String, Bool, true, ◌≡◌, Option, none, some, ◌◇◌, show, ends_with, Result, ok, err,
  if◌then◌else◌,
}
use autonomous_agent_account.Core.Policy.{Policy}
use autonomous_agent_account.Core.Ports.{SandboxError, apply_failed, revoke_failed, SandboxEnforcer}
use autonomous_agent_account.Sandbox.Profile.{generate_sb_profile}

-- `std::fs`: an operation may fail with the text of its error. `read` is the content of a file.
pub record FileSystem (W : Type 0) : Type 0 where
  pub read : String → W → Option String
  pub create_dir_all : String → W → Result Unit String × W
  pub write : String → String → W → Result Unit String × W
  pub exists : String → W → Bool
  pub remove_file : String → W → Result Unit String × W
  -- A successful write leaves the content in the file.
  pub read-write :
      (path content : String) (w : W)
      → (write path content w).0 ≡ ok tt
      → read path (write path content w).1 ≡ some content
  -- A file that can be read exists, and a removed one cannot be read.
  pub read-exists :
      (path content : String) (w : W) → read path w ≡ some content → exists path w ≡ true
  pub read-remove :
      (path : String) (w : W)
      → (remove_file path w).0 ≡ ok tt
      → read path (remove_file path w).1 ≡ none

-- `Path::join` with a relative name.
abbrev pub join : String → String → String
join dir name = if ends_with dir "/" then dir ◇ name else dir ◇ ("/" ◇ name)

pub record MacOsSandbox : Type 0 where
  pub profile_dir : String

-- `MacOsSandbox::new`, from the directory for temporary files.
unfoldable pub new : String → MacOsSandbox
new temp_dir = record { profile_dir = join temp_dir "autonomous-agent-accountability-profiles" }

module _ {W : Type 0} (fs : FileSystem W) where
  open fs use {create_dir_all, write, exists, remove_file}

  abbrev pub profile_path : MacOsSandbox → ℕ → String
  profile_path self pid = join self.profile_dir ("accountability-" ◇ (show pid ◇ ".sb"))

  unfoldable pub apply_policy : MacOsSandbox → ℕ → Policy → W → Result Unit SandboxError × W
  apply_policy self pid policy w =
      let profile = generate_sb_profile policy in
      let (made, w') = create_dir_all self.profile_dir w in
      elim made [
        | err e ↦ (err (apply_failed ("Cannot create profile dir: " ◇ e)), w')
        | ok u ↦
            let (written, w'') = write (profile_path self pid) profile w' in
            elim written [
              | err e ↦ (err (apply_failed ("Cannot write profile: " ◇ e)), w'')
              | ok u ↦ (ok tt, w'')
            ]
      ]

  unfoldable pub revoke : MacOsSandbox → ℕ → W → Result Unit SandboxError × W
  revoke self pid w =
      if exists (profile_path self pid) w
      then (let (removed, w') = remove_file (profile_path self pid) w in
          elim removed [
            | err e ↦ (err (revoke_failed ("Cannot remove profile: " ◇ e)), w')
            | ok u ↦ (ok tt, w')
          ])
      else (ok tt, w)

  pub enforcer : MacOsSandbox → SandboxEnforcer W
  unfolding apply_policy revoke
  enforcer self = record {
    apply_policy = apply_policy self;
    revoke = revoke self;
    backend_name = "sandbox-exec";
  }
