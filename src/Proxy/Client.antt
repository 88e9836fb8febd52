-- ===== src/Proxy/Client.antt =====
-- stdio_proxy.rs, the task `parent_to_child`: one line from the client, as one step.
pub mod Effect
pub mod Gate
use autonomous_agent_account.Base.{
  ℕ, String, Bool, ◌||◌, none, some, ◌==◌, is_some, lookup, insert, trim_end, ok, err, Outcome,
  done, failed, panicked, exited, if◌then◌else◌,
}
use autonomous_agent_account.External.Json.{Json}
use autonomous_agent_account.External.Crypto.{Crypto}
use autonomous_agent_account.External.Http.{Reply}
use autonomous_agent_account.Ledger.Lease.{has_nonce, ensure_lease}
use autonomous_agent_account.Ledger.Event.{EventEnv, insert_local_event}
use autonomous_agent_account.Proxy.Decision.{is_irreversible}
use autonomous_agent_account.Proxy.Request.{is_tool_call, req_id_str, tool_name_str, stable_nonce}
use autonomous_agent_account.Proxy.State.{
  Settings, Flow, continue, panic, exit, Shared, say, forward, batch_error, missing_id_error,
  in_flight_error, duplicate_error, denied_error,
}

module _ ⦃J : Json⦄ where
  open J use {Value}

  -- What the outside gives while one line is handled: whether the child takes a line, whether the
  -- database can be read, the time of the lease check, the HTTP client, and what storing needs.
  pub record ClientEnv : Type 0 where
    pub child_accepts : Bool
    pub readable : Bool
    pub lease_now : ℕ
    pub post : String → Value → Reply
    pub event : EventEnv

module _ ⦃J : Json⦄ ⦃K : Crypto⦄ where
  open J use {Value, Object, from_str, as_object, is_array, map_get, null, string}

  -- The answer when the ledger does not allow the call.
  unfoldable pub deny : Object → String → Shared → Flow × Shared
  deny req e s = elim (map_get req "id") [
    | none ↦ (continue, s)
    | some id ↦ (continue, say (denied_error id e) s)
  ]

  -- The match on the result of `insert_local_event`.
  unfoldable pub after_insert :
      ClientEnv → String → Object → String → Outcome String String → Shared → Flow × Shared
  unfolding deny
  after_insert env line req nonce (done stored) s =
      forward env.child_accepts line
        (record s { pending_calls = insert (req_id_str req) nonce s.pending_calls })
  after_insert env line req nonce (failed e) s = deny req e s
  after_insert env line req nonce panicked s = (panic, s)
  after_insert env line req nonce (exited code) s = (exit code, s)

  unfoldable pub record_call : ClientEnv → String → Object → String → Shared → Flow × Shared
  unfolding after_insert
  record_call env line req nonce s =
      let (stored, client) =
        insert_local_event env.event (trim_end line) "SEAL_REQUESTED" (some nonce)
          s.ledger_client in
      after_insert env line req nonce stored (record s { ledger_client = client })

  -- The lease, and the record once it is there.
  unfoldable pub lease_call : ClientEnv → String → Object → String → Shared → Flow × Shared
  unfolding record_call
  lease_call env line req nonce s =
      let (lease, client) = ensure_lease env.post env.lease_now s.ledger_client in
      elim lease [
        | err e ↦ deny req e (record s { ledger_client = client })
        | ok u ↦ record_call env line req nonce (record s { ledger_client = client })
      ]

  -- A tool call that the policy sends through the ledger.
  unfoldable pub gated_call : Settings → ClientEnv → String → Object → Shared → Flow × Shared
  unfolding lease_call
  gated_call set env line req s =
      let id = req_id_str req in
      let nonce = stable_nonce set.device_id req in
      if id == "" || id == "null"
      then (continue, say missing_id_error s)
      else if is_some (lookup id s.pending_calls)
      then (continue, say (in_flight_error id) s)
      else if has_nonce env.readable nonce s.ledger_client
      then (continue, say (duplicate_error id) s)
      else lease_call env line req nonce s

  unfoldable pub client_object : Settings → ClientEnv → String → Object → Shared → Flow × Shared
  unfolding gated_call
  client_object set env line req s =
      if is_tool_call req
      then if is_irreversible set.policy_json (tool_name_str req) (map_get req "params")
        then gated_call set env line req s
        else forward env.child_accepts line s
      else forward env.child_accepts line s

  unfoldable pub client_value : Settings → ClientEnv → String → Value → Shared → Flow × Shared
  unfolding client_object
  client_value set env line val s = elim (as_object val) [
    | some req ↦ client_object set env line req s
    | none ↦
        if is_array val then (continue, say batch_error s) else forward env.child_accepts line s
  ]

  unfoldable pub client_line : Settings → ClientEnv → String → Shared → Flow × Shared
  unfolding client_value
  client_line set env line s = elim (from_str line) [
    | none ↦ forward env.child_accepts line s
    | some val ↦ client_value set env line val s
  ]
