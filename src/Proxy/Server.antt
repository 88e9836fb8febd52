-- ===== src/Proxy/Server.antt =====
-- stdio_proxy.rs, the task `child_to_parent`: one line from the child, as one step.
pub mod Seal
use autonomous_agent_account.Base.{
  String, Bool, Option, none, some, is_some, lookup, remove, trim_end, and_then, Outcome, done,
  failed, panicked, exited, if◌then◌else◌,
}
use autonomous_agent_account.External.Json.{Json}
use autonomous_agent_account.External.Crypto.{Crypto}
use autonomous_agent_account.Ledger.Event.{EventEnv, insert_local_event}
use autonomous_agent_account.Proxy.State.{Settings, Flow, continue, break, panic, exit, Shared, say}

-- What the outside gives while one line is handled.
pub record ServerEnv : Type 0 where
  pub client_accepts : Bool
  pub event : EventEnv

module _ ⦃J : Json⦄ ⦃K : Crypto⦄ where
  open J use {Value, Object, from_str, as_object, map_get, to_string}

  -- The line goes to the client; a failure breaks the loop.
  abbrev pub pass_on : Bool → String → Shared → Flow × Shared
  pass_on accepts line s = if accepts then (continue, say line s) else (break, s)

  abbrev pub terminal_status : Object → String
  terminal_status res = if is_some (map_get res "error") then "SEAL_FAILED" else "SEAL_COMPLETED"

  unfoldable pub after_seal : ServerEnv → String → Outcome String String → Shared → Flow × Shared
  after_seal env line (done stored) s = pass_on env.client_accepts line s
  after_seal env line (failed e) s = (exit 1, s)
  after_seal env line panicked s = (panic, s)
  after_seal env line (exited code) s = (exit code, s)

  -- The response to a pending call, whose entry has been removed.
  unfoldable pub seal_response :
      Settings → ServerEnv → String → Object → String → Shared → Flow × Shared
  unfolding after_seal
  seal_response set env line res nonce s =
      if set.crash_after_execution
      then (exit 9, s)
      else (let (stored, client) =
            insert_local_event env.event (trim_end line) (terminal_status res) (some nonce)
              s.ledger_client in
          after_seal env line stored (record s { ledger_client = client }))

  -- The text of the response's id, as `pending_calls` has it.
  abbrev pub response_id : Object → Option String
  response_id res = and_then (map_get res "id") (λ id. some (to_string id))

  unfoldable pub server_object : Settings → ServerEnv → String → Object → Shared → Flow × Shared
  unfolding seal_response
  server_object set env line res s = elim (response_id res) [
    | none ↦ pass_on env.client_accepts line s
    | some id ↦ elim (lookup id s.pending_calls) [
      | none ↦ pass_on env.client_accepts line s
      | some nonce ↦
          seal_response set env line res nonce
            (record s { pending_calls = remove id s.pending_calls })
    ]
  ]

  unfoldable pub server_line : Settings → ServerEnv → String → Shared → Flow × Shared
  unfolding server_object
  server_line set env line s = elim (and_then (from_str line) as_object) [
    | none ↦ pass_on env.client_accepts line s
    | some res ↦ server_object set env line res s
  ]
