-- ===== src/Tests/Relay.antt =====
-- The theorems on the relay at concrete lines.
use autonomous_agent_account.Base.{
  String, ◌≡◌, refl, subst, Bool, true, false, Option, none, some, [], ◌∷◌, arith, trim_end,
}
use autonomous_agent_account.Ledger.Database.Keys.{rows}
use autonomous_agent_account.Ledger.Lease.{has_nonce, ensure_lease}
use autonomous_agent_account.Ledger.Event.{insert_local_event}
use autonomous_agent_account.Proxy.Decision.{is_irreversible, policy_of}
use autonomous_agent_account.Proxy.Decision.Rules.{LetsPast, is_irreversible-false}
use autonomous_agent_account.Proxy.Request.{stable_nonce}
use autonomous_agent_account.Proxy.State.{continue}
use autonomous_agent_account.Proxy.Client.{client_line}
use autonomous_agent_account.Proxy.Client.Effect.{
  call_nonce, Refused, LineEffect, client_line-LineEffect,
}
use autonomous_agent_account.Proxy.Client.Gate.{passed_line, replay-Refused}
use autonomous_agent_account.Proxy.Server.{server_line}
use autonomous_agent_account.Proxy.Relay.{
  Relay, start, after_client, after_server, client_step, server_step, Reach, here, next,
}
use autonomous_agent_account.Proxy.Relay.Account.{calls}
use autonomous_agent_account.Tests.Instances.{
  Value, json, crypto, call_line, answer_line, policy_text, spurious_params,
}
use autonomous_agent_account.Tests.Cases.{client, shared, settings, client_env, server_env}

abbrev nonce : String
nonce = "1.0.0.0.0.0.0.0.0.0.0.0.0.0.0.0."

-- The relay after the call and its answer.
abbrev called : Relay
called = after_client (start client) (client_line settings client_env call_line shared)

called_path : Reach settings client called
called_path = next here (client_step client_env call_line refl refl)

called_calls : calls settings nonce called.shared.child_stdin ≡ 1
unfolding after_client client_line trim_end autonomous_agent_account.Proxy.Decision.is_irreversible
    autonomous_agent_account.Tests.Instances.print autonomous_agent_account.Base.Int.show_int
    autonomous_agent_account.Ledger.Lease.has_nonce
    autonomous_agent_account.Ledger.Lease.ensure_lease
    autonomous_agent_account.Ledger.Event.insert_local_event
    autonomous_agent_account.Ledger.Event.json_rpc_id call_nonce
    autonomous_agent_account.Proxy.Request.stable_nonce
called_calls = refl

abbrev answered : Relay
answered = after_server called (server_line settings server_env answer_line called.shared)

called_open : called.server_open ≡ true
unfolding after_client client_line trim_end autonomous_agent_account.Proxy.Decision.is_irreversible
    autonomous_agent_account.Tests.Instances.print autonomous_agent_account.Base.Int.show_int
    autonomous_agent_account.Ledger.Lease.has_nonce
    autonomous_agent_account.Ledger.Lease.ensure_lease
    autonomous_agent_account.Ledger.Event.insert_local_event
    autonomous_agent_account.Ledger.Event.json_rpc_id
called_open = refl

called_runs : called.exit_code ≡ none
unfolding after_client client_line trim_end autonomous_agent_account.Proxy.Decision.is_irreversible
    autonomous_agent_account.Tests.Instances.print autonomous_agent_account.Base.Int.show_int
    autonomous_agent_account.Ledger.Lease.has_nonce
    autonomous_agent_account.Ledger.Lease.ensure_lease
    autonomous_agent_account.Ledger.Event.insert_local_event
    autonomous_agent_account.Ledger.Event.json_rpc_id
called_runs = refl

answered_path : Reach settings client answered
answered_path = next called_path (server_step server_env answer_line called_open called_runs)

-- The answer is sealed: both events are in the log.
answered_rows : rows nonce "SEAL_COMPLETED" answered.shared.ledger_client.db_conn ≡ 1
unfolding after_server server_line trim_end after_client client_line
    autonomous_agent_account.Proxy.Decision.is_irreversible
    autonomous_agent_account.Tests.Instances.print autonomous_agent_account.Base.Int.show_int
    autonomous_agent_account.Ledger.Lease.has_nonce
    autonomous_agent_account.Ledger.Lease.ensure_lease
    autonomous_agent_account.Ledger.Event.insert_local_event
    autonomous_agent_account.Ledger.Event.json_rpc_id
    autonomous_agent_account.Proxy.Request.stable_nonce
answered_rows = refl

answered_requests : rows nonce "SEAL_REQUESTED" answered.shared.ledger_client.db_conn ≡ 1
unfolding after_server server_line trim_end after_client client_line is_irreversible
    autonomous_agent_account.Tests.Instances.print autonomous_agent_account.Base.Int.show_int
    has_nonce ensure_lease insert_local_event autonomous_agent_account.Ledger.Event.json_rpc_id
    stable_nonce
answered_requests = refl

call_is : call_nonce settings call_line ≡ some nonce
unfolding call_nonce trim_end autonomous_agent_account.Proxy.Decision.is_irreversible
    autonomous_agent_account.Proxy.Request.stable_nonce
    autonomous_agent_account.Tests.Instances.print autonomous_agent_account.Base.Int.show_int
call_is = refl

-- The same call again, after its answer.
replay-Refused_example :
    Refused answered.shared (client_line settings client_env call_line answered.shared).1
replay-Refused_example =
    replay-Refused settings client_env call_line answered.shared nonce call_is
      (omega (arith, answered_requests))

client_line-LineEffect_example :
    LineEffect client_env call_line
      (call_nonce settings call_line)
      shared
      (client_line settings client_env call_line shared).1
client_line-LineEffect_example = client_line-LineEffect settings client_env call_line shared

answer_is_no_call : call_nonce settings answer_line ≡ none
unfolding call_nonce trim_end
answer_is_no_call = refl

abbrev batch : Option Value → Bool
batch none = false
batch (some v) = json.is_array v

answer_is_no_batch : (v : Value) → json.from_str answer_line ≡ some v → json.is_array v ≡ false
unfolding trim_end
answer_is_no_batch v h = subst (λ (o : Option Value). batch o ≡ false) h refl

passed_line_example :
    client_line settings client_env answer_line shared
    ≡ (continue, record shared { child_stdin = answer_line ∷ [] })
passed_line_example =
    passed_line settings client_env answer_line shared answer_is_no_call answer_is_no_batch refl

-- A rule that waives the ledger for a small number among the parameters.
spurious_past : is_irreversible (some policy_text) "delete" (some spurious_params) ≡ false
unfolding is_irreversible trim_end
spurious_past = refl

is_irreversible-false_example :
    LetsPast (policy_of (some policy_text)) "delete" (some spurious_params)
is_irreversible-false_example =
    is_irreversible-false (some policy_text) "delete" (some spurious_params) spurious_past
