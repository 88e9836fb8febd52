-- ===== src/Sandbox/Profile.antt =====
-- daemon/crates/accountability-sandbox/src/macos.rs: the text of a Seatbelt profile.
pub mod Rules
pub mod Regex
use autonomous_agent_account.Base.{String, Bool, List, [], ◌∷◌, ◌◇◌, replace, if◌then◌else◌}
use autonomous_agent_account.Core.Policy.{Policy, ToolPolicy, Capability, network_connect}

-- The innermost loop: one rule for each host.
push_hosts : String → List String → String
push_hosts profile [] = profile
push_hosts profile (host ∷ hosts) =
    push_hosts (profile ◇ ("(allow network-outbound (remote ip \"*:" ◇ (host ◇ "\"))\n"))) hosts

abbrev push_capability : String → Capability → String
push_capability profile (network_connect hosts) = push_hosts profile hosts
push_capability profile _ = profile

push_capabilities : String → List Capability → String
push_capabilities profile [] = profile
push_capabilities profile (cap ∷ caps) = push_capabilities (push_capability profile cap) caps

-- `policy.tool_policies().values()`, in the map's own order.
push_tools : String → List (String × ToolPolicy) → String
push_tools profile [] = profile
push_tools profile ((name, tool_policy) ∷ tools) =
    push_tools (push_capabilities profile tool_policy.capabilities) tools

unfoldable pub generate_sb_profile : Policy → String
unfolding push_tools push_capabilities push_hosts
generate_sb_profile policy =
    let profile : String = "(version 1)\n" in
    let profile = profile ◇ "(allow default)\n" in
    let profile = profile ◇ "(deny file-read* (regex #\".*/\\.ssh/.*\"))\n" in
    let profile = profile ◇ "(deny file-read* (regex #\".*/\\.env\"))\n" in
    let profile = if policy.default_deny then profile ◇ "(deny network-outbound)\n" else profile in
    push_tools profile policy.tool_policies

pub glob_to_sb_regex : String → String
unfolding replace
glob_to_sb_regex glob = replace b'?' "." (replace b'*' ".*" (replace b'.' "\\." glob))
