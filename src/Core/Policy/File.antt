-- ===== src/Core/Policy/File.antt =====
-- What `check_file_access` accepts, and that the order of capabilities does not matter.
use mathlib.Core.List.{Perm}
use autonomous_agent_account.Base.{
  String, ◌≡◌, ◌↔◌, ◌⊎◌, inl, inr, refl, Bool, true, false, Option, none, some, List, [], ◌∷◌, ◌◇◌,
  arith, lookup, any, Any, any-Any, Any-any, any-perm, ok, err, contains_iff, ends_with_iff,
  IsInfix, IsSuffix, Option-cases,
}
use autonomous_agent_account.Core.Policy.{
  Capability, file_read, file_write, network_connect, network_deny, file_deny_all, ToolPolicy,
  Policy, PolicyViolation, denies_files, allows_file, check_file_access,
}

module _ (glob_match : String → String → Bool) (path : String) where
  -- The capability names a pattern that the path matches, for reading or for writing alike.
  abbrev pub GrantsFile : Capability → Type 0
  GrantsFile c =
      (pattern : String) × ((c ≡ file_read pattern) ⊎ (c ≡ file_write pattern))
      × (glob_match pattern path ≡ true)

  abbrev pub GrantedTo : Bool → Option ToolPolicy → Type 0
  GrantedTo default_deny none = default_deny ≡ false
  GrantedTo default_deny (some p) =
      (¬ Any (λ c. c ≡ file_deny_all) p.capabilities) × Any GrantsFile p.capabilities

  -- The file access that a policy is meant to allow.
  abbrev pub MayUseFile : Policy → String → Type 0
  MayUseFile self tool =
      (¬ IsInfix "/.ssh/" path)
      × (¬ IsSuffix "/.ssh" path)
      × GrantedTo self.default_deny (lookup tool self.tool_policies)

  allows_file_iff : (c : Capability) → (allows_file glob_match path c ≡ true) ↔ GrantsFile c
  allows_file_iff (file_read p) = (λ h. (p, inl refl, h), λ (q, e, h). ground arith)
  allows_file_iff (file_write p) = (λ h. (p, inr refl, h), λ (q, e, h). ground arith)
  allows_file_iff (network_connect hs) = (λ h. cc, λ (q, e, h). ground arith)
  allows_file_iff network_deny = (λ h. cc, λ (q, e, h). ground arith)
  allows_file_iff file_deny_all = (λ h. cc, λ (q, e, h). ground arith)

denies_files_iff :
    (caps : List Capability) → (denies_files caps ≡ true) ↔ Any (λ c. c ≡ file_deny_all) caps
unfolding denies_files
denies_files_iff [] = (λ h. cc, λ h. absurd h)
denies_files_iff (file_deny_all ∷ caps) = (λ h. inl refl, λ h. refl)
denies_files_iff (file_read p ∷ caps) = ground (arith, denies_files_iff caps)
denies_files_iff (file_write p ∷ caps) = ground (arith, denies_files_iff caps)
denies_files_iff (network_connect hs ∷ caps) = ground (arith, denies_files_iff caps)
denies_files_iff (network_deny ∷ caps) = ground (arith, denies_files_iff caps)

abbrev is_deny_all : Capability → Bool
is_deny_all file_deny_all = true
is_deny_all _ = false

denies_files-eq-any : (caps : List Capability) → denies_files caps ≡ any is_deny_all caps
unfolding denies_files
denies_files-eq-any [] = refl
denies_files-eq-any (file_deny_all ∷ caps) = refl
denies_files-eq-any (file_read p ∷ caps) = denies_files-eq-any caps
denies_files-eq-any (file_write p ∷ caps) = denies_files-eq-any caps
denies_files-eq-any (network_connect hs ∷ caps) = denies_files-eq-any caps
denies_files-eq-any (network_deny ∷ caps) = denies_files-eq-any caps

denies_files-perm : {xs ys : List Capability} → Perm xs ys → denies_files xs ≡ denies_files ys
denies_files-perm perm = rw (denies_files-eq-any, denies_files-eq-any) (any-perm is_deny_all perm)

module _ (glob_match : String → String → Bool) where
  -- A file check accepts exactly the paths that are no SSH key directory or below one, and that
  -- the tool's capabilities grant with no `FileDenyAll` among them, or that a policy without
  -- `default_deny` leaves open because it does not name the tool.
  pub check_file_access-ok_iff :
      (self : Policy) (tool path : String)
      → (check_file_access glob_match self tool path ≡ ok tt) ↔ MayUseFile glob_match path self tool
  unfolding check_file_access
  check_file_access-ok_iff self tool path = elim (Option-cases (lookup tool self.tool_policies)) [
    | inl unknown ↦
        rw unknown (ground (arith, contains_iff path "/.ssh/", ends_with_iff path "/.ssh"))
    | inr (p, known) ↦ rw known (
        ground (
          arith,
          contains_iff path "/.ssh/",
          ends_with_iff path "/.ssh",
          denies_files_iff p.capabilities,
          any-Any (allows_file glob_match path) (GrantsFile glob_match path)
              (allows_file_iff glob_match path) p.capabilities,
          Any-any (allows_file glob_match path) (GrantsFile glob_match path)
              (allows_file_iff glob_match path) p.capabilities,
        ))
  ]

  -- A refused file check names the tool, the path and one of the four rules.
  pub check_file_access-err :
      (self : Policy) (tool path : String) (v : PolicyViolation)
      → check_file_access glob_match self tool path ≡ err v
      → (v.tool_name ≡ tool)
        × (v.attempted_action ≡ "File access: " ◇ path)
        × Any
            (λ rule. v.matched_rule ≡ some rule)
            ("Hardcoded SSH block" ∷ "Default deny" ∷ "FileDenyAll" ∷ "No matching allow capability"
              ∷ [])
  unfolding check_file_access
  check_file_access-err self tool path v h = ground arith

  -- Two policies that give a tool the same capabilities in another order decide alike.
  pub check_file_access-perm :
      (self other : Policy) (tool path : String) {p q : ToolPolicy}
      → lookup tool self.tool_policies ≡ some p
      → lookup tool other.tool_policies ≡ some q
      → Perm p.capabilities q.capabilities
      → check_file_access glob_match self tool path ≡ check_file_access glob_match other tool path
  unfolding check_file_access
  check_file_access-perm self other tool path {p} {q} hp hq perm =
      rw (hp, hq)
        (ground (arith, denies_files-perm perm, any-perm (allows_file glob_match path) perm))
