-- ===== src/Tests/Policies.antt =====
-- The theorems on policies, messages, sessions and the macOS enforcer at concrete inputs.
use mathlib.Core.List.{Perm, Permᴰ}
use autonomous_agent_account.Base.{
  String, ◌≡◌, ◌↔◌, ◌⊎◌, refl, Bool, true, Option, none, some, List, [], ◌∷◌, ◌++◌, ◌==◌, eq_refl,
  ok, err, map, is_some, arith, if◌then◌else◌, concat_texts,
}
use autonomous_agent_account.Core.Policy.{
  Capability, file_read, network_connect, ToolPolicy, Policy, PolicyViolation, check_file_access,
  check_network_access,
}
use autonomous_agent_account.Core.Policy.File.{MayUseFile, check_file_access-ok_iff}
use autonomous_agent_account.Core.Policy.Network.{MayConnect, check_network_access-ok_iff}
use autonomous_agent_account.Core.JsonRpc.{
  JsonRpcMessage, JsonRpcRequest, ToolCallRequest, invalid_json, parse, extract_tool_call,
}
use autonomous_agent_account.Core.JsonRpc.Laws.{HasCall, parse-stream, extract_tool_call-some_iff}
use autonomous_agent_account.Core.Ports.{AuditSink, AuditSinkError}
use autonomous_agent_account.Core.Session.{ProxySession, audit, call_event, on_tool_call}
use autonomous_agent_account.Core.Session.Laws.{on_tool_call-ok_iff}
use autonomous_agent_account.Core.Audit.{AuditEvent}
use autonomous_agent_account.Sandbox.Linux.{landlock}
use autonomous_agent_account.Sandbox.Profile.{generate_sb_profile, glob_to_sb_regex}
use autonomous_agent_account.Sandbox.Profile.Rules.{profile_rules, generate_sb_profile-rules}
use autonomous_agent_account.Sandbox.Profile.Regex.{regex_of, glob_to_sb_regex-single_pass}
use autonomous_agent_account.Sandbox.MacOs.{FileSystem, new, apply_policy, revoke}
use autonomous_agent_account.Sandbox.MacOs.Files.{apply_policy-revoke}
use autonomous_agent_account.Tests.Instances.{json, text, object, null}

-- A pattern matches itself.
abbrev pub glob : String → String → Bool
glob pattern path = pattern == path

abbrev pub tool_policy : List Capability → ToolPolicy
tool_policy caps = record { tool_name = "edit"; capabilities = caps }

abbrev pub read_write : List Capability
read_write = file_read "/a" ∷ network_connect ("h" ∷ []) ∷ []

abbrev write_read : List Capability
write_read = network_connect ("h" ∷ []) ∷ file_read "/a" ∷ []

abbrev pub policy_with : List Capability → Policy
policy_with caps = record {
  name = "p";
  description = none;
  default_deny = true;
  tool_policies = ("edit", tool_policy caps) ∷ [];
}

abbrev pub policy : Policy
policy = policy_with read_write

check_file_access-ok_iff_example :
    (check_file_access glob policy "edit" "/a" ≡ ok tt) ↔ MayUseFile glob "/a" policy "edit"
check_file_access-ok_iff_example = check_file_access-ok_iff glob policy "edit" "/a"

abbrev refused : PolicyViolation
refused = record {
  tool_name = "edit";
  attempted_action = "File access: /b";
  matched_rule = some "No matching allow capability";
}

refuses : check_file_access glob policy "edit" "/b" ≡ err refused
unfolding check_file_access
refuses = refl

swapped : Perm read_write write_read
swapped = ∣ Permᴰ.swap refl refl ∣₁

check_network_access-ok_iff_example :
    (check_network_access glob policy "edit" "h" 443 ≡ ok tt) ↔ MayConnect glob "h" policy "edit"
check_network_access-ok_iff_example = check_network_access-ok_iff glob policy "edit" "h" 443

abbrev message : JsonRpcRequest
message = record {
  jsonrpc = "2.0";
  id = none;
  method = "tools/call";
  params = some (object (("name", text "edit") ∷ []));
}

abbrev call : ToolCallRequest
call = record { tool_name = "edit"; arguments = null }

abbrev only_eof : String → Bool
only_eof e = e == "eof"

parse-stream_example :
    (parse only_eof (map ok (JsonRpcMessage.request message ∷ []))
      ≡ ok (JsonRpcMessage.request message ∷ []))
    × (parse only_eof (map ok (JsonRpcMessage.request message ∷ []) ++ err "syntax" ∷ []) ≡ (
        if only_eof "syntax"
        then ok (JsonRpcMessage.request message ∷ [])
        else err (invalid_json "syntax")))
parse-stream_example = parse-stream only_eof (JsonRpcMessage.request message ∷ []) "syntax" []

extract_tool_call-some_iff_example :
    (extract_tool_call message ≡ some call)
    ↔ ((message.method ≡ "tools/call") × HasCall message.params call)
extract_tool_call-some_iff_example = extract_tool_call-some_iff message call

-- A sink that writes the event to the log which is its world, and the Linux enforcer.
abbrev sink : AuditSink (List AuditEvent)
sink = record { emit = λ event w. (ok tt, event ∷ w) }

abbrev session : ProxySession (List AuditEvent)
session = record { sandbox = landlock; audit_sink = sink; policy = policy }

on_tool_call-ok_iff_example :
    (((on_tool_call session 1 call 2 []).0 ≡ ok tt) ↔ (
      ((sink.emit (call_event 1 call 2) []).0 ≡ ok tt)
      × ((landlock.apply_policy 2 policy (sink.emit (call_event 1 call 2) []).1).0 ≡ ok tt)))
    × (((sink.emit (call_event 1 call 2) []).0 ≡ ok tt)
        ⊎ ((e : AuditSinkError) × ((sink.emit (call_event 1 call 2) []).0 ≡ err e)
            × (on_tool_call session 1 call 2 []
                ≡ (err (audit e), (sink.emit (call_event 1 call 2) []).1))))
on_tool_call-ok_iff_example = on_tool_call-ok_iff session 1 call 2 []

generate_sb_profile-rules_example : generate_sb_profile policy ≡ concat_texts (profile_rules policy)
generate_sb_profile-rules_example = generate_sb_profile-rules policy

glob_to_sb_regex-single_pass_example : glob_to_sb_regex "*.r?" ≡ regex_of "*.r?"
glob_to_sb_regex-single_pass_example = glob_to_sb_regex-single_pass "*.r?"

-- A file system whose world gives each path its content.
abbrev pub World : Type 0
World = String → Option String

abbrev pub set : String → Option String → World → World
set path content w other = if other == path then content else w other

pub set-same :
    (path : String) (content : Option String) (w : World) → set path content w path ≡ content
set-same path content w = rw (eq_refl path) refl

abbrev pub files : FileSystem World
files = record {
  read = λ path w. w path;
  create_dir_all = λ dir w. (ok tt, w);
  write = λ path content w. (ok tt, set path (some content) w);
  exists = λ path w. is_some (w path);
  remove_file = λ path w. (ok tt, set path none w);
  read-write = λ path content w h. set-same path (some content) w;
  read-exists = λ path content w h. rw h refl;
  read-remove = λ path w h. set-same path none w;
}

abbrev pub empty_world : World
empty_world path = none

abbrev applied : World
applied = (apply_policy files (new "/tmp") 9 policy empty_world).1

applies : (apply_policy files (new "/tmp") 9 policy empty_world).0 ≡ ok tt
unfolding apply_policy
applies = refl

revokes : (revoke files (new "/tmp") 9 applied).0 ≡ ok tt
unfolding revoke apply_policy new autonomous_agent_account.Base.ends_with
    autonomous_agent_account.Base.show
revokes = refl

apply_policy-revoke_example :
    let path : String = "/tmp/autonomous-agent-accountability-profiles/accountability-9.sb" in
    (files.read path applied ≡ some (generate_sb_profile policy))
    × (files.read path (revoke files (new "/tmp") 9 applied).1 ≡ none)
unfolding autonomous_agent_account.Base.ends_with autonomous_agent_account.Base.show
apply_policy-revoke_example = apply_policy-revoke files "/tmp" 9 policy empty_world applies revokes
