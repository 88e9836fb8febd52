-- ===== src/Proxy/Actions/Client.antt =====
-- The task `parent_to_child`, a shared access at a time.
use autonomous_agent_account.Base.{
  ℕ, String, ◌||◌, Option, none, some, [], ◌∷◌, ◌++◌, ◌==◌, is_some, lookup, insert, trim_end,
  Result, ok, err, Outcome, done, failed, panicked, exited, if◌then◌else◌,
}
use autonomous_agent_account.External.Json.{Json}
use autonomous_agent_account.External.Crypto.{Crypto}
use autonomous_agent_account.Ledger.Client.{LedgerClient}
use autonomous_agent_account.Ledger.Lease.{has_nonce, ensure_lease}
use autonomous_agent_account.Ledger.Event.{insert_local_event}
use autonomous_agent_account.Proxy.Decision.{is_irreversible}
use autonomous_agent_account.Proxy.Request.{is_tool_call, req_id_str, tool_name_str, stable_nonce}
use autonomous_agent_account.Proxy.State.{
  Settings, Shared, say, batch_error, missing_id_error, in_flight_error, duplicate_error,
  denied_error,
}
use autonomous_agent_account.Proxy.Client.{ClientEnv}

module _ ⦃J : Json⦄ where
  open J use {Value, Object, from_str, as_object, is_array, map_get}

  -- Where the task stands: before it reads a line, before an answer or a line is written, or before
  -- one of the accesses of a call that goes through the ledger.
  pub data ClientTask : Type 0 where
    reading : ClientTask
    answering : String → ClientTask
    passing : String → ClientTask  -- `child_stdin.write_all`
    checking : String → Object → ClientTask  -- `pending_calls.contains_key`
    looking : String → Object → ClientTask  -- `has_nonce`
    leasing : String → Object → ClientTask  -- `ensure_lease`
    storing : String → Object → ClientTask  -- `insert_local_event`
    filing : String → Object → ClientTask  -- `pending_calls.insert`
    closed : ClientTask

  unfoldable pub read_object : Settings → String → Object → ClientTask
  read_object set line req =
      if is_tool_call req
      then if is_irreversible set.policy_json (tool_name_str req) (map_get req "params")
        then if req_id_str req == "" || req_id_str req == "null"
          then answering missing_id_error
          else checking line req
        else passing line
      else passing line

  unfoldable pub read_value : Settings → String → Value → ClientTask
  unfolding read_object
  read_value set line val = elim (as_object val) [
    | some req ↦ read_object set line req
    | none ↦ if is_array val then answering batch_error else passing line
  ]

  -- What the task does with a line before its first shared access.
  unfoldable pub read_line : Settings → String → ClientTask
  unfolding read_value
  read_line set line = elim (from_str line) [
    | none ↦ passing line
    | some val ↦ read_value set line val
  ]

  -- After a refusal by the ledger.
  abbrev pub refusing : Object → String → ClientTask
  refusing req e = elim (map_get req "id") [
    | none ↦ reading
    | some id ↦ answering (denied_error id e)
  ]

module _ ⦃J : Json⦄ ⦃K : Crypto⦄ where
  open J use {Object}

  -- The next place of a task, what all tasks share, and the code if the process ends.
  abbrev pub Acted : Type 0 → Type 0
  Acted T = T × Shared × Option ℕ

  abbrev pub after_lease :
      String → Object → Result Unit String × LedgerClient → Shared → Acted ClientTask
  after_lease line req (ok u, client) s =
      (storing line req, record s { ledger_client = client }, none)
  after_lease line req (err e, client) s =
      (refusing req e, record s { ledger_client = client }, none)

  abbrev pub after_store :
      String → Object → Outcome String String × LedgerClient → Shared → Acted ClientTask
  after_store line req (done n, client) s =
      (filing line req, record s { ledger_client = client }, none)
  after_store line req (failed e, client) s =
      (refusing req e, record s { ledger_client = client }, none)
  after_store line req (panicked, client) s = (closed, record s { ledger_client = client }, none)
  after_store line req (exited code, client) s =
      (closed, record s { ledger_client = client }, some code)

  -- One action. `input` is the line that is read, if the task reads one.
  unfoldable pub client_action :
      Settings → ClientEnv → String → ClientTask → Shared → Acted ClientTask
  unfolding read_line
  client_action set env input reading s = (read_line set input, s, none)
  client_action set env input (answering text) s = (reading, say text s, none)
  client_action set env input (passing line) s =
      if env.child_accepts
      then (reading, record s { child_stdin = s.child_stdin ++ line ∷ [] }, none)
      else (closed, s, none)
  client_action set env input (checking line req) s =
      if is_some (lookup (req_id_str req) s.pending_calls)
      then (answering (in_flight_error (req_id_str req)), s, none)
      else (looking line req, s, none)
  client_action set env input (looking line req) s =
      if has_nonce env.readable (stable_nonce set.device_id req) s.ledger_client
      then (answering (duplicate_error (req_id_str req)), s, none)
      else (leasing line req, s, none)
  client_action set env input (leasing line req) s =
      after_lease line req (ensure_lease env.post env.lease_now s.ledger_client) s
  client_action set env input (storing line req) s =
      after_store line req
        (insert_local_event env.event (trim_end line) "SEAL_REQUESTED"
          (some (stable_nonce set.device_id req)) s.ledger_client)
        s
  client_action set env input (filing line req) s = (
    passing line,
    record s {
      pending_calls = insert (req_id_str req) (stable_nonce set.device_id req) s.pending_calls;
    },
    none,
  )
  client_action set env input closed s = (closed, s, none)
