-- ===== src/Tests/Tasks.antt =====
-- The theorems on the interleaved tasks, along one run.
use autonomous_agent_account.Base.{trim_end, ◌+◌, ◌-◌, ◌≤◌, ◌≡◌, refl, none, some, [], ◌∷◌, arith}
use autonomous_agent_account.Ledger.Database.Keys.{rows}
use autonomous_agent_account.Ledger.Sync.Signed.{AllSigned}
use autonomous_agent_account.Ledger.Sync.Sealed.{AllSealed}
use autonomous_agent_account.Proxy.Actions.Client.{client_action}
use autonomous_agent_account.Proxy.Actions.Server.{server_action}
use autonomous_agent_account.Proxy.Relay.Account.{calls}
use autonomous_agent_account.Proxy.Relay.Log.{IsConsistent}
use autonomous_agent_account.Proxy.Tasks.{server_step}
use autonomous_agent_account.Proxy.Tasks.Runs.{sent_once, sent_recorded, sealed_once}
use autonomous_agent_account.Proxy.Tasks.Log.Reached.{
  reached-IsConsistent, reached-AllSigned, reached-AllSealed,
}
use autonomous_agent_account.Proxy.Tasks.Life.{Advance, life}
use autonomous_agent_account.Proxy.Tasks.Ends.{sealing_succeeds}
use autonomous_agent_account.Ledger.Database.{AuditRow}
use autonomous_agent_account.Ledger.Event.Stored.{IsSigned}
use autonomous_agent_account.Ledger.Event.Succeeds.{with_row}
use autonomous_agent_account.Ledger.Event.{json_rpc_id}
use autonomous_agent_account.Base.Int.{pos}
use autonomous_agent_account.Proxy.Actions.Server.{sealing, relaying}
use autonomous_agent_account.Proxy.Tasks.Life.Refined.{Step-Advance}
use autonomous_agent_account.Tests.Instances.{
  json, crypto, call_line, answer_line, Fields, fields, number, null,
}
use autonomous_agent_account.Tests.Cases.{client, settings, server_env}
use autonomous_agent_account.Tests.Run.{
  nonce, passed, passed_path, received, received_path, sealed, received_runs, sealed_path,
}

sent_once_example : calls settings nonce sealed.shared.child_stdin ≤ 1
sent_once_example = sent_once settings nonce client sealed refl sealed_path

passed_lines : passed.shared.child_stdin ≡ call_line ∷ []
unfolding client_action autonomous_agent_account.Base.trim_end
    autonomous_agent_account.Proxy.Decision.is_irreversible
    autonomous_agent_account.Tests.Instances.print autonomous_agent_account.Base.Int.show_int
    autonomous_agent_account.Ledger.Lease.has_nonce
    autonomous_agent_account.Ledger.Lease.ensure_lease
    autonomous_agent_account.Ledger.Event.insert_local_event
    autonomous_agent_account.Ledger.Event.json_rpc_id
passed_lines = refl

line_counts : calls settings nonce (call_line ∷ []) ≡ 1
unfolding autonomous_agent_account.Proxy.Client.Effect.call_nonce
    autonomous_agent_account.Base.trim_end autonomous_agent_account.Proxy.Decision.is_irreversible
    autonomous_agent_account.Proxy.Request.stable_nonce
    autonomous_agent_account.Tests.Instances.print autonomous_agent_account.Base.Int.show_int
line_counts = refl

passed_sent : 1 ≤ calls settings nonce passed.shared.child_stdin
passed_sent = rw passed_lines (omega (arith, line_counts))

sent_recorded_example : rows nonce "SEAL_REQUESTED" passed.shared.ledger_client.db_conn ≡ 1
sent_recorded_example = sent_recorded settings nonce client passed refl passed_path passed_sent

sealed_once_example :
    (rows nonce "SEAL_FAILED" sealed.shared.ledger_client.db_conn
        + rows nonce "SEAL_COMPLETED" sealed.shared.ledger_client.db_conn
      ≤ rows nonce "SEAL_REQUESTED" sealed.shared.ledger_client.db_conn)
    × (rows nonce "SEAL_REQUESTED" sealed.shared.ledger_client.db_conn ≤ 1)
sealed_once_example = sealed_once settings nonce client sealed refl sealed_path

reached-IsConsistent_example : IsConsistent sealed.shared.ledger_client.db_conn
reached-IsConsistent_example = reached-IsConsistent client settings sealed refl sealed_path

reached-AllSigned_example : AllSigned client sealed.shared.ledger_client.db_conn
reached-AllSigned_example = reached-AllSigned client settings sealed refl sealed_path

reached-AllSealed_example : AllSealed 3 sealed.shared.ledger_client.db_conn
reached-AllSealed_example = reached-AllSealed client settings sealed refl sealed_path

-- The step that seals the answer.
Step-Advance_example : Advance (life settings nonce received) (life settings nonce sealed)
Step-Advance_example =
    Step-Advance settings nonce client refl received sealed received_path
      (server_step server_env answer_line received_runs)

abbrev answer : Fields
answer = fields (("id", number (pos 1)) ∷ ("result", null) ∷ [])

received_seals : received.server ≡ sealing answer_line answer nonce
unfolding server_action trim_end client_action
    autonomous_agent_account.Proxy.Decision.is_irreversible
    autonomous_agent_account.Tests.Instances.print autonomous_agent_account.Base.Int.show_int
    autonomous_agent_account.Ledger.Lease.has_nonce
    autonomous_agent_account.Ledger.Lease.ensure_lease
    autonomous_agent_account.Ledger.Event.insert_local_event json_rpc_id
    autonomous_agent_account.Proxy.Request.stable_nonce
received_seals = refl

answer_id : json_rpc_id (trim_end answer_line) ≡ some (some "1")
unfolding json_rpc_id trim_end
answer_id = refl

sealing_succeeds_example :
    (row : AuditRow) × (row.nonce ≡ nonce)
    × (row.action_status ≡ "SEAL_COMPLETED")
    × IsSigned received.shared.ledger_client (trim_end answer_line) row
    × (server_action settings server_env "" received.server received.shared ≡ (
      relaying answer_line,
      record (received.shared) { ledger_client = with_row row received.shared.ledger_client },
      none,
    ))
sealing_succeeds_example =
    sealing_succeeds settings client received refl received_path server_env "" answer_line nonce
      answer (received.shared.ledger_client.encryption_key ∷ 0 ∷ []) (some "1") received_seals refl
      refl answer_id refl refl
