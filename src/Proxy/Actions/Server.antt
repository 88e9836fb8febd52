-- ===== src/Proxy/Actions/Server.antt =====
-- The task `child_to_parent`, a shared access at a time.
use autonomous_agent_account.Base.{
  String, Option, none, some, and_then, lookup, remove, trim_end, Outcome, done, failed, panicked,
  exited, if◌then◌else◌,
}
use autonomous_agent_account.External.Json.{Json}
use autonomous_agent_account.External.Crypto.{Crypto}
use autonomous_agent_account.Ledger.Client.{LedgerClient}
use autonomous_agent_account.Ledger.Event.{insert_local_event}
use autonomous_agent_account.Proxy.State.{Settings, Shared, say}
use autonomous_agent_account.Proxy.Server.{ServerEnv, terminal_status, response_id}
use autonomous_agent_account.Proxy.Actions.Client.{Acted}

module _ ⦃J : Json⦄ where
  open J use {Object}

  pub data ServerTask : Type 0 where
    reading : ServerTask
    matching : String → Object → String → ServerTask  -- `pending_calls.remove` of an id
    sealing : String → Object → String → ServerTask  -- `insert_local_event` under a nonce
    relaying : String → ServerTask  -- `stdout.write_all`
    closed : ServerTask

module _ ⦃J : Json⦄ ⦃K : Crypto⦄ where
  open J use {Object, from_str, as_object}

  unfoldable pub answer_object : String → Object → ServerTask
  answer_object line res = elim (response_id res) [
    | none ↦ relaying line
    | some id ↦ matching line res id
  ]

  unfoldable pub read_answer : String → ServerTask
  unfolding answer_object
  read_answer line = elim (and_then (from_str line) as_object) [
    | none ↦ relaying line
    | some res ↦ answer_object line res
  ]

  abbrev pub after_sealing :
      String → Outcome String String × LedgerClient → Shared → Acted ServerTask
  after_sealing line (done n, client) s = (relaying line, record s { ledger_client = client }, none)
  after_sealing line (failed e, client) s = (closed, record s { ledger_client = client }, some 1)
  after_sealing line (panicked, client) s = (closed, record s { ledger_client = client }, none)
  after_sealing line (exited code, client) s =
      (closed, record s { ledger_client = client }, some code)

  abbrev pub take_call : String → Object → String → Option String → Shared → Acted ServerTask
  take_call line res id none s = (relaying line, s, none)
  take_call line res id (some nonce) s =
      (sealing line res nonce, record s { pending_calls = remove id s.pending_calls }, none)

  unfoldable pub server_action :
      Settings → ServerEnv → String → ServerTask → Shared → Acted ServerTask
  unfolding read_answer
  server_action set env input reading s = (read_answer input, s, none)
  server_action set env input (matching line res id) s =
      take_call line res id (lookup id s.pending_calls) s
  server_action set env input (sealing line res nonce) s =
      if set.crash_after_execution
      then (closed, s, some 9)
      else after_sealing line
          (insert_local_event env.event (trim_end line) (terminal_status res) (some nonce)
            s.ledger_client)
          s
  server_action set env input (relaying line) s =
      if env.client_accepts then (reading, say line s, none) else (closed, s, none)
  server_action set env input closed s = (closed, s, none)
