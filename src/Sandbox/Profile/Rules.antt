-- ===== src/Sandbox/Profile/Rules.antt =====
-- A profile is the concatenation of its rules, one for each host that the policy names.
use text.Mathlib.TextLemmas.{append_assoc, append-nil, nil-append}
use autonomous_agent_account.Base.{
  String, ◌≡◌, ◌∙◌, sym, List, [], ◌∷◌, ◌++◌, map, ◌◇◌, concat_texts, if◌then◌else◌, inl, inr,
  Bool-cases,
}
use autonomous_agent_account.Core.Policy.{
  Policy, ToolPolicy, Capability, file_read, file_write, network_connect, network_deny,
  file_deny_all,
}
use autonomous_agent_account.Sandbox.Profile.{
  push_hosts, push_capability, push_capabilities, push_tools, generate_sb_profile,
}

abbrev pub host_rule : String → String
host_rule host = "(allow network-outbound (remote ip \"*:" ◇ (host ◇ "\"))\n")

abbrev pub capability_rules : Capability → List String
capability_rules (network_connect hosts) = map host_rule hosts
capability_rules _ = []

abbrev pub capabilities_rules : List Capability → List String
capabilities_rules [] = []
capabilities_rules (c ∷ cs) = capability_rules c ++ capabilities_rules cs

abbrev pub tools_rules : List (String × ToolPolicy) → List String
tools_rules [] = []
tools_rules ((name, t) ∷ tools) = capabilities_rules t.capabilities ++ tools_rules tools

abbrev pub network_rules : Policy → List String
network_rules p = if p.default_deny then "(deny network-outbound)\n" ∷ [] else []

-- The rules that a policy stands for, in order.
abbrev pub profile_rules : Policy → List String
profile_rules p =
    "(version 1)\n"
    ∷ "(allow default)\n"
    ∷ "(deny file-read* (regex #\".*/\\.ssh/.*\"))\n"
    ∷ "(deny file-read* (regex #\".*/\\.env\"))\n"
    ∷ (network_rules p ++ tools_rules p.tool_policies)

concat_texts-append :
    (xs ys : List String) → concat_texts (xs ++ ys) ≡ concat_texts xs ◇ concat_texts ys
concat_texts-append [] ys = sym (nil-append _)
concat_texts-append (x ∷ xs) ys = rw (concat_texts-append xs ys) (sym (append_assoc _ _ _))

push_hosts_lem :
    (p : String) (hs : List String) → push_hosts p hs ≡ p ◇ concat_texts (map host_rule hs)
unfolding push_hosts
push_hosts_lem p [] = sym (append-nil p)
push_hosts_lem p (h ∷ hs) = push_hosts_lem (p ◇ host_rule h) hs ∙ append_assoc _ _ _

push_capability_lem :
    (p : String) (c : Capability) → push_capability p c ≡ p ◇ concat_texts (capability_rules c)
push_capability_lem p (network_connect hs) = push_hosts_lem p hs
push_capability_lem p (file_read x) = sym (append-nil p)
push_capability_lem p (file_write x) = sym (append-nil p)
push_capability_lem p network_deny = sym (append-nil p)
push_capability_lem p file_deny_all = sym (append-nil p)

push_capabilities_lem :
    (p : String) (cs : List Capability)
    → push_capabilities p cs ≡ p ◇ concat_texts (capabilities_rules cs)
unfolding push_capabilities
push_capabilities_lem p [] = sym (append-nil p)
push_capabilities_lem p (c ∷ cs) =
    rw
      (
        push_capabilities_lem (push_capability p c) cs,
        push_capability_lem p c,
        concat_texts-append (capability_rules c) (capabilities_rules cs),
      )
      (append_assoc _ _ _)

push_tools_lem :
    (p : String) (ts : List (String × ToolPolicy))
    → push_tools p ts ≡ p ◇ concat_texts (tools_rules ts)
unfolding push_tools
push_tools_lem p [] = sym (append-nil p)
push_tools_lem p ((n, t) ∷ ts) =
    rw
      (
        push_tools_lem (push_capabilities p t.capabilities) ts,
        push_capabilities_lem p t.capabilities,
        concat_texts-append (capabilities_rules t.capabilities) (tools_rules ts),
      )
      (append_assoc _ _ _)

-- The profile of a policy is the text of its rules one after another: the version, the default, the
-- two fixed file rules, the network denial exactly if `default_deny` is set, and one rule for each
-- host of each tool in the map's order.
pub generate_sb_profile-rules :
    (p : Policy) → generate_sb_profile p ≡ concat_texts (profile_rules p)
unfolding generate_sb_profile
generate_sb_profile-rules p = rw push_tools_lem (elim (Bool-cases p.default_deny) [
  | inl e ↦ rw e (simp (← append_assoc))
  | inr e ↦ rw e (simp (← append_assoc))
])
