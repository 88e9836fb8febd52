-- ===== src/Tests/Actions.antt =====
-- The theorems on the actions of the tasks, on the queue at the end of a run, and on what an event is
-- stored and sent as.
use autonomous_agent_account.Base.{
  ◌-◌, String, ◌≡◌, refl, true, none, some, [], ◌∷◌, arith, done, trim_end,
}
use autonomous_agent_account.Base.Int.{negsuc}
use autonomous_agent_account.External.Http.{Reply, Response, response}
use autonomous_agent_account.Ledger.Client.{LedgerClient}
use autonomous_agent_account.Ledger.Database.{oldest_unsealed}
use autonomous_agent_account.Ledger.Lease.{has_nonce}
use autonomous_agent_account.Ledger.Event.{insert_local_event}
use autonomous_agent_account.Ledger.Event.RoundTrip.{IsNext, insert_local_event-RoundTrip}
use autonomous_agent_account.Ledger.Sync.{sync_queue}
use autonomous_agent_account.Ledger.Sync.Range.{sync_queue-negative}
use autonomous_agent_account.Ledger.Sync.Progress.{unsealed}
use autonomous_agent_account.Ledger.Sync.Flush.{AllAccepted}
use autonomous_agent_account.Proxy.Client.{client_line}
use autonomous_agent_account.Proxy.Server.{server_line}
use autonomous_agent_account.Proxy.Relay.{flush}
use autonomous_agent_account.Proxy.Actions.Client.{read_line}
use autonomous_agent_account.Proxy.Actions.Server.{read_answer}
use autonomous_agent_account.Proxy.Actions.Rounds.{client_actions, ended}
use autonomous_agent_account.Proxy.Actions.Lines.{client_actions-client_line}
use autonomous_agent_account.Proxy.Actions.Answers
use autonomous_agent_account.Proxy.Tasks.{
  Tasks, started, client_acted, server_acted, background_acted,
}
use autonomous_agent_account.Proxy.Tasks.Rounds.{Run, rounds-Run}
use autonomous_agent_account.Proxy.Tasks.Flushed.{reached-flush}
use autonomous_agent_account.Tests.Instances.{
  Value, json, crypto, number, text, object, call_line, answer_line,
}
use autonomous_agent_account.Tests.Cases.{
  client, shared, settings, client_env, server_env, sync_env, event, post, tx, waiting,
  waiting_client,
}
use autonomous_agent_account.Tests.Log.{accepts, waiting_oldest}
use autonomous_agent_account.Tests.Run.{stored, stored_path}

client_actions-client_line_example :
    client_actions 6 settings client_env (read_line settings call_line) shared
    ≡ ended (client_line settings client_env call_line shared)
client_actions-client_line_example =
    client_actions-client_line settings client_env call_line 6 shared (omega arith)

server_actions-server_line_example :
    Answers.server_actions 3 settings server_env (read_answer answer_line) shared
    ≡ Answers.ended (server_line settings server_env answer_line shared)
server_actions-server_line_example =
    Answers.server_actions-server_line settings server_env answer_line 3 shared (omega arith)

abbrev begun : Tasks
begun = started client [] []

rounds-Run_example :
    Run settings begun
      (client_acted begun (ended (client_line settings client_env call_line shared)))
    × Run settings begun
        (server_acted begun (Answers.ended (server_line settings server_env answer_line shared)))
    × Run settings begun (background_acted begun (none, sync_queue true post tx client))
rounds-Run_example =
    rounds-Run settings begun client_env server_env sync_env call_line answer_line refl refl refl
      refl

stored_url : stored.shared.ledger_client.ledger_url ≡ "https://ledger"
unfolding autonomous_agent_account.Proxy.Actions.Client.client_action trim_end
    autonomous_agent_account.Proxy.Decision.is_irreversible
    autonomous_agent_account.Tests.Instances.print autonomous_agent_account.Base.Int.show_int
    has_nonce autonomous_agent_account.Ledger.Lease.ensure_lease insert_local_event
    autonomous_agent_account.Ledger.Event.json_rpc_id
stored_url = refl

stored_key : stored.shared.ledger_client.ledger_pub_key ≡ 3
unfolding autonomous_agent_account.Proxy.Actions.Client.client_action trim_end
    autonomous_agent_account.Proxy.Decision.is_irreversible
    autonomous_agent_account.Tests.Instances.print autonomous_agent_account.Base.Int.show_int
    has_nonce autonomous_agent_account.Ledger.Lease.ensure_lease insert_local_event
    autonomous_agent_account.Ledger.Event.json_rpc_id
stored_key = refl

stored_accepted : AllAccepted (λ n. sync_env) stored.shared.ledger_client
stored_accepted n =
    (refl, (refl, refl, refl, refl), λ row. rw (stored_url, stored_key) (accepts row))

reached-flush_example :
    unsealed (flush (λ n. sync_env) stored.shared.ledger_client).db_conn
    ≡ unsealed stored.shared.ledger_client.db_conn - 10
reached-flush_example =
    reached-flush settings client stored (λ n. sync_env) refl stored_path stored_accepted

-- An event of a payload that is no JSON, in an empty database.
abbrev logged : LedgerClient
logged = (insert_local_event event "payload" "SEAL_REQUESTED" (some "n") client).1

logged_done :
    insert_local_event event "payload" "SEAL_REQUESTED" (some "n") client ≡ (done "n", logged)
unfolding insert_local_event autonomous_agent_account.Ledger.Event.json_rpc_id trim_end
logged_done = refl

nothing_waits : oldest_unsealed client.db_conn.local_audit_log ≡ none
unfolding oldest_unsealed
nothing_waits = refl

insert_local_event-RoundTrip_example :
    (◌≡◌ {A = String} "n" "n")
    × (has_nonce true "n" logged ≡ true)
    × IsNext "payload" "n" "SEAL_REQUESTED" client logged post tx
insert_local_event-RoundTrip_example =
    insert_local_event-RoundTrip event "payload" "SEAL_REQUESTED" "n" "n" client logged post tx
      logged_done nothing_waits

-- A receipt of one second before the epoch.
abbrev early_body : Value
early_body = object (
    ("receipt_signature", text "signed by 3")
    ∷ ("ledger_timestamp", number (negsuc 0))
    ∷ ("chain_hash", text "chain")
    ∷ [])

abbrev early : Response
early = record { is_success = true; status = 200; body = some early_body }

abbrev post_early : String → Value → Reply
post_early url body = response early

sync_queue-negative_example : sync_queue true post_early tx waiting_client ≡ waiting_client
sync_queue-negative_example =
    sync_queue-negative post_early tx waiting early early_body 0 waiting_client waiting_oldest refl
      refl refl refl (omega arith)
