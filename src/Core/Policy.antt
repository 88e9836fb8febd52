-- ===== src/Core/Policy.antt =====
-- daemon/crates/accountability-core/src/domain/policy.rs: a policy and its two checks. The
-- `glob_match` crate is a parameter. A `HashMap` is the list of its entries, in the order in which
-- it would be iterated.
pub mod File
pub mod Network
use autonomous_agent_account.Base.{
  ℕ, String, Bool, true, false, ◌||◌, Option, none, some, List, [], ◌∷◌, ◌◇◌, lookup, any, Result,
  ok, err, contains, ends_with, if◌then◌else◌,
}

pub data Capability : Type 0 where
  file_read : String → Capability
  file_write : String → Capability
  network_connect : List String → Capability
  network_deny : Capability
  file_deny_all : Capability

pub record ToolPolicy : Type 0 where
  pub tool_name : String
  pub capabilities : List Capability

pub record Policy : Type 0 where
  pub name : String
  pub description : Option String
  pub default_deny : Bool
  pub tool_policies : List (String × ToolPolicy)

pub data PolicyError (E : Type 0) : Type 0 where
  parse : E → PolicyError E

pub record PolicyViolation : Type 0 where
  pub tool_name : String
  pub attempted_action : String
  pub matched_rule : Option String

-- `Policy::from_json`, over serde's reading of a policy.
unfoldable pub from_json :
    {E : Type 0} → (String → Result Policy E) → String → Result Policy (PolicyError E)
from_json from_str json = elim (from_str json) [ ok p ↦ ok p | err e ↦ err (parse e) ]

abbrev violation : String → String → String → PolicyViolation
violation tool action rule = record {
  tool_name = tool;
  attempted_action = action;
  matched_rule = some rule;
}

is_ssh : String → Bool
unfolding contains ends_with
is_ssh path = contains path "/.ssh/" || ends_with path "/.ssh"

-- The first loop of `check_file_access`.
denies_files : List Capability → Bool
denies_files [] = false
denies_files (file_deny_all ∷ caps) = true
denies_files (_ ∷ caps) = denies_files caps

-- The first loop of `check_network_access`.
denies_network : List Capability → Bool
denies_network [] = false
denies_network (network_deny ∷ caps) = true
denies_network (_ ∷ caps) = denies_network caps

module _ (glob_match : String → String → Bool) where
  -- The guard of the second loop of `check_file_access`.
  abbrev allows_file : String → Capability → Bool
  allows_file path (file_read pattern) = glob_match pattern path
  allows_file path (file_write pattern) = glob_match pattern path
  allows_file path _ = false

  abbrev allows_host : String → Capability → Bool
  allows_host host (network_connect hosts) = any (λ h. glob_match h host) hosts
  allows_host host _ = false

  unfoldable pub check_file_access : Policy → String → String → Result Unit PolicyViolation
  unfolding is_ssh denies_files
  check_file_access self tool path =
      if is_ssh path
      then err (violation tool ("File access: " ◇ path) "Hardcoded SSH block")
      else elim (lookup tool self.tool_policies) [
        | none ↦
            if self.default_deny
            then err (violation tool ("File access: " ◇ path) "Default deny")
            else ok tt
        | some p ↦
            if denies_files p.capabilities
            then err (violation tool ("File access: " ◇ path) "FileDenyAll")
            else if any (allows_file path) p.capabilities
            then ok tt
            else err (violation tool ("File access: " ◇ path) "No matching allow capability")
      ]

  pub check_network_access : Policy → String → String → ℕ → Result Unit PolicyViolation
  unfolding denies_network
  check_network_access self tool host port = elim (lookup tool self.tool_policies) [
    | none ↦
        if self.default_deny
        then err (violation tool ("Network connect: " ◇ host) "Default deny")
        else ok tt
    | some p ↦
        if denies_network p.capabilities
        then err (violation tool ("Network connect: " ◇ host) "NetworkDeny")
        else if any (allows_host host) p.capabilities
        then ok tt
        else err (violation tool ("Network connect: " ◇ host) "No matching allow capability")
  ]
