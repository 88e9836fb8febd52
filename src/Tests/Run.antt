-- ===== src/Tests/Run.antt =====
-- One run of the interleaved tasks: a call is gated, sent, answered and sealed while a synchronisation
-- fetches its receipt.
use autonomous_agent_account.Base.{String, ◌≡◌, refl, none, [], arith}
use autonomous_agent_account.Proxy.Actions.Client.{client_action}
use autonomous_agent_account.Proxy.Actions.Server.{server_action}
use autonomous_agent_account.Proxy.Actions.Sync.{sync_action}
use autonomous_agent_account.Proxy.Tasks.{
  Tasks, started, client_acted, server_acted, background_acted, client_step, server_step,
  background_step, Reach, here, next,
}
use autonomous_agent_account.Ledger.Event.{json_rpc_id}
use autonomous_agent_account.Base.{trim_end}
use autonomous_agent_account.Tests.Instances.{json, crypto, call_line, answer_line}
use autonomous_agent_account.Tests.Cases.{client, settings, client_env, server_env, sync_env}

abbrev pub nonce : String
nonce = "1.0.0.0.0.0.0.0.0.0.0.0.0.0.0.0."

-- One action of a task.
abbrev from_client : Tasks → Tasks
from_client t = client_acted t (client_action settings client_env call_line t.client t.shared)

abbrev from_server : Tasks → Tasks
from_server t = server_acted t (server_action settings server_env answer_line t.server t.shared)

abbrev from_sync : Tasks → Tasks
from_sync t = background_acted t (sync_action sync_env t.background t.shared.ledger_client)

abbrev begun : Tasks
begun = started client [] []

begun_path : Reach settings client begun
begun_path = here

abbrev read : Tasks
read = from_client begun

begun_runs : begun.exit_code ≡ none
begun_runs = refl

read_path : Reach settings client read
read_path = next begun_path (client_step client_env call_line begun_runs)

abbrev checked : Tasks
checked = from_client read

read_runs : read.exit_code ≡ none
unfolding client_action
read_runs = refl

checked_path : Reach settings client checked
checked_path = next read_path (client_step client_env call_line read_runs)

abbrev looked : Tasks
looked = from_client checked

checked_runs : checked.exit_code ≡ none
unfolding client_action autonomous_agent_account.Base.trim_end
    autonomous_agent_account.Proxy.Decision.is_irreversible
    autonomous_agent_account.Tests.Instances.print autonomous_agent_account.Base.Int.show_int
checked_runs = refl

looked_path : Reach settings client looked
looked_path = next checked_path (client_step client_env call_line checked_runs)

abbrev leased : Tasks
leased = from_client looked

looked_runs : looked.exit_code ≡ none
unfolding client_action autonomous_agent_account.Base.trim_end
    autonomous_agent_account.Proxy.Decision.is_irreversible
    autonomous_agent_account.Tests.Instances.print autonomous_agent_account.Base.Int.show_int
    autonomous_agent_account.Ledger.Lease.has_nonce
looked_runs = refl

leased_path : Reach settings client leased
leased_path = next looked_path (client_step client_env call_line looked_runs)

abbrev pub stored : Tasks
stored = from_client leased

leased_runs : leased.exit_code ≡ none
unfolding client_action autonomous_agent_account.Base.trim_end
    autonomous_agent_account.Proxy.Decision.is_irreversible
    autonomous_agent_account.Tests.Instances.print autonomous_agent_account.Base.Int.show_int
    autonomous_agent_account.Ledger.Lease.has_nonce
    autonomous_agent_account.Ledger.Lease.ensure_lease
leased_runs = refl

pub stored_path : Reach settings client stored
stored_path = next leased_path (client_step client_env call_line leased_runs)

abbrev selected : Tasks
selected = from_sync stored

stored_runs : stored.exit_code ≡ none
unfolding client_action autonomous_agent_account.Base.trim_end
    autonomous_agent_account.Proxy.Decision.is_irreversible
    autonomous_agent_account.Tests.Instances.print autonomous_agent_account.Base.Int.show_int
    autonomous_agent_account.Ledger.Lease.has_nonce
    autonomous_agent_account.Ledger.Lease.ensure_lease
    autonomous_agent_account.Ledger.Event.insert_local_event
    autonomous_agent_account.Ledger.Event.json_rpc_id
stored_runs = refl

selected_path : Reach settings client selected
selected_path = next stored_path (background_step sync_env stored_runs)

abbrev filed : Tasks
filed = from_client selected

selected_runs : selected.exit_code ≡ none
unfolding client_action autonomous_agent_account.Base.trim_end
    autonomous_agent_account.Proxy.Decision.is_irreversible
    autonomous_agent_account.Tests.Instances.print autonomous_agent_account.Base.Int.show_int
    autonomous_agent_account.Ledger.Lease.has_nonce
    autonomous_agent_account.Ledger.Lease.ensure_lease
    autonomous_agent_account.Ledger.Event.insert_local_event
    autonomous_agent_account.Ledger.Event.json_rpc_id
selected_runs = refl

filed_path : Reach settings client filed
filed_path = next selected_path (client_step client_env call_line selected_runs)

abbrev pub passed : Tasks
passed = from_client filed

filed_runs : filed.exit_code ≡ none
unfolding client_action autonomous_agent_account.Base.trim_end
    autonomous_agent_account.Proxy.Decision.is_irreversible
    autonomous_agent_account.Tests.Instances.print autonomous_agent_account.Base.Int.show_int
    autonomous_agent_account.Ledger.Lease.has_nonce
    autonomous_agent_account.Ledger.Lease.ensure_lease
    autonomous_agent_account.Ledger.Event.insert_local_event
    autonomous_agent_account.Ledger.Event.json_rpc_id
filed_runs = refl

pub passed_path : Reach settings client passed
passed_path = next filed_path (client_step client_env call_line filed_runs)

abbrev heard : Tasks
heard = from_server passed

passed_runs : passed.exit_code ≡ none
unfolding client_action autonomous_agent_account.Base.trim_end
    autonomous_agent_account.Proxy.Decision.is_irreversible
    autonomous_agent_account.Tests.Instances.print autonomous_agent_account.Base.Int.show_int
    autonomous_agent_account.Ledger.Lease.has_nonce
    autonomous_agent_account.Ledger.Lease.ensure_lease
    autonomous_agent_account.Ledger.Event.insert_local_event
    autonomous_agent_account.Ledger.Event.json_rpc_id
passed_runs = refl

heard_path : Reach settings client heard
heard_path = next passed_path (server_step server_env answer_line passed_runs)

abbrev matched : Tasks
matched = from_server heard

heard_runs : heard.exit_code ≡ none
unfolding server_action
heard_runs = refl

matched_path : Reach settings client matched
matched_path = next heard_path (server_step server_env answer_line heard_runs)

abbrev pub received : Tasks
received = from_sync matched

matched_runs : matched.exit_code ≡ none
unfolding server_action autonomous_agent_account.Base.trim_end client_action
    autonomous_agent_account.Proxy.Decision.is_irreversible
    autonomous_agent_account.Tests.Instances.print autonomous_agent_account.Base.Int.show_int
    autonomous_agent_account.Ledger.Lease.has_nonce
    autonomous_agent_account.Ledger.Lease.ensure_lease
    autonomous_agent_account.Ledger.Event.insert_local_event
    autonomous_agent_account.Ledger.Event.json_rpc_id
matched_runs = refl

pub received_path : Reach settings client received
received_path = next matched_path (background_step sync_env matched_runs)

abbrev pub sealed : Tasks
sealed = from_server received

pub received_runs : received.exit_code ≡ none
unfolding server_action autonomous_agent_account.Base.trim_end client_action
    autonomous_agent_account.Proxy.Decision.is_irreversible
    autonomous_agent_account.Tests.Instances.print autonomous_agent_account.Base.Int.show_int
    autonomous_agent_account.Ledger.Lease.has_nonce
    autonomous_agent_account.Ledger.Lease.ensure_lease
    autonomous_agent_account.Ledger.Event.insert_local_event
    autonomous_agent_account.Ledger.Event.json_rpc_id
received_runs = refl

pub sealed_path : Reach settings client sealed
sealed_path = next received_path (server_step server_env answer_line received_runs)
