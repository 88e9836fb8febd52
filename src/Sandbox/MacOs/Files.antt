-- ===== src/Sandbox/MacOs/Files.antt =====
-- The life of the profile file of a process under the macOS enforcer.
use autonomous_agent_account.Base.{ℕ, String, ◌≡◌, ◌◇◌, show, none, some, arith, ok}
use autonomous_agent_account.Core.Policy.{Policy}
use autonomous_agent_account.Sandbox.Profile.{generate_sb_profile}
use autonomous_agent_account.Sandbox.MacOs.{
  FileSystem, MacOsSandbox, new, join, profile_path, apply_policy, revoke,
}

module _ {W : Type 0} (fs : FileSystem W) where
  module _ (self : MacOsSandbox) (pid : ℕ) where
    read-apply_policy :
        (policy : Policy) (w : W)
        → (apply_policy fs self pid policy w).0 ≡ ok tt
        → fs.read (profile_path fs self pid) (apply_policy fs self pid policy w).1
          ≡ some (generate_sb_profile policy)
    unfolding apply_policy
    read-apply_policy policy w h = ground (
      arith,
      fs.read-write (profile_path fs self pid) (generate_sb_profile policy)
          (fs.create_dir_all self.profile_dir w).1,
    )

    read-revoke :
        (content : String) (w : W)
        → fs.read (profile_path fs self pid) w ≡ some content
        → (revoke fs self pid w).0 ≡ ok tt
        → fs.read (profile_path fs self pid) (revoke fs self pid w).1 ≡ none
    unfolding revoke
    read-revoke content w found h = ground (
      arith,
      fs.read-remove (profile_path fs self pid) w,
      fs.read-exists (profile_path fs self pid) content w found,
    )

  -- Under the macOS enforcer with a directory for temporary files, a policy that was applied to a
  -- process is, as the profile generated from it, in the file
  -- `autonomous-agent-accountability-profiles/accountability-<pid>.sb` of that directory, and once a
  -- revocation for that process has then succeeded, this file cannot be read any more.
  pub apply_policy-revoke :
      (temp_dir : String) (pid : ℕ) (policy : Policy) (w : W)
      → (apply_policy fs (new temp_dir) pid policy w).0 ≡ ok tt
      → (revoke fs (new temp_dir) pid (apply_policy fs (new temp_dir) pid policy w).1).0 ≡ ok tt
      → let path =
          join
            (join temp_dir "autonomous-agent-accountability-profiles")
            ("accountability-" ◇ (show pid ◇ ".sb")) in
        let applied = (apply_policy fs (new temp_dir) pid policy w).1 in
        (fs.read path applied ≡ some (generate_sb_profile policy))
        × (fs.read path (revoke fs (new temp_dir) pid applied).1 ≡ none)
  unfolding new
  apply_policy-revoke temp_dir pid policy w applies revokes =
      let kept = read-apply_policy (new temp_dir) pid policy w applies in
      (
        kept,
        read-revoke (new temp_dir) pid (generate_sb_profile policy)
            (apply_policy fs (new temp_dir) pid policy w).1 kept revokes,
      )
