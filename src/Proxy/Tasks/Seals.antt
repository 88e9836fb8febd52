-- ===== src/Proxy/Tasks/Seals.antt =====
-- Each action of the child's task and of a synchronisation keeps the account of every nonce.
use autonomous_agent_account.Base.{
  ℕ, String, ◌≡◌, ◌⊎◌, inl, inr, refl, ap, Bool, true, false, Option, none, some, ◌==◌, and_then,
  lookup, trim_end, Outcome, done, failed, panicked, exited, Bool-cases, Option-cases,
  if◌then◌else◌,
}
use autonomous_agent_account.External.Json.{Json}
use autonomous_agent_account.External.Crypto.{Crypto}
use autonomous_agent_account.Ledger.Client.{LedgerClient}
use autonomous_agent_account.Ledger.Event.{insert_local_event}
use autonomous_agent_account.Ledger.Event.Stored.{Stored, Unstored, insert_local_event-cases}
use autonomous_agent_account.Proxy.State.{Settings, Shared}
use autonomous_agent_account.Proxy.Server.{ServerEnv, terminal_status, response_id}
use autonomous_agent_account.Proxy.Server.Seal.{IsTerminal, terminal_status-IsTerminal}
use autonomous_agent_account.Proxy.Actions.Server.{
  ServerTask, reading, matching, sealing, relaying, closed, answer_object, read_answer,
  after_sealing, take_call, server_action,
}
use autonomous_agent_account.Proxy.Relay.Pending.{unit_if}
use autonomous_agent_account.Proxy.Relay.Account.{Adds, Stored-Adds}
use autonomous_agent_account.Proxy.Tasks.Account.{
  IsAccounted, unsealed-IsAccounted, taken-IsAccounted, sealed-IsAccounted,
}

module _ ⦃J : Json⦄ ⦃K : Crypto⦄ (set : Settings) where
  open J use {Object, from_str, as_object}

  -- The ends that the task is about to store under a nonce.
  abbrev pub to_seal : String → ServerTask → ℕ
  to_seal n (sealing line res nonce) = unit_if (nonce == n)
  to_seal n _ = 0

  to_seal-read_answer : (n line : String) → to_seal n (read_answer line) ≡ 0
  unfolding read_answer answer_object
  to_seal-read_answer n line = elim (Option-cases (and_then (from_str line) as_object)) [
    | inl e ↦ rw (e, read_answer) refl
    | inr (res, e) ↦ elim (Option-cases (response_id res)) [
      | inl f ↦ rw (e, f, read_answer, answer_object) refl
      | inr (id, f) ↦ rw (e, f, read_answer, answer_object) refl
    ]
  ]

  module _ (n : String) (send file : ℕ) where
    abbrev pub Kept : ServerTask → Shared → Type 0
    Kept task s =
        IsAccounted set n s.child_stdin s.pending_calls s.ledger_client.db_conn send file
          (to_seal n task)

    module _ (line nonce status : String) (s : Shared) (terminal : IsTerminal status)
        (h : IsAccounted set n s.child_stdin s.pending_calls s.ledger_client.db_conn send file
          (unit_if (nonce == n))) where
      after_sealing-Kept :
          (o : Outcome String String) (client : LedgerClient)
          → client.db_conn ≡ s.ledger_client.db_conn
          → let a = after_sealing line (o, client) s in Kept a.0 a.1
      after_sealing-Kept (done x) client same = rw same (
          unsealed-IsAccounted set n s.child_stdin s.pending_calls s.ledger_client.db_conn send file
            _ h)
      after_sealing-Kept (failed e) client same = rw same (
          unsealed-IsAccounted set n s.child_stdin s.pending_calls s.ledger_client.db_conn send file
            _ h)
      after_sealing-Kept panicked client same = rw same (
          unsealed-IsAccounted set n s.child_stdin s.pending_calls s.ledger_client.db_conn send file
            _ h)
      after_sealing-Kept (exited code) client same = rw same (
          unsealed-IsAccounted set n s.child_stdin s.pending_calls s.ledger_client.db_conn send file
            _ h)

      after_sealing-Adds :
          (o : Outcome String String) (client : LedgerClient)
          → Adds set nonce status s.ledger_client.db_conn client.db_conn
          → let a = after_sealing line (o, client) s in Kept a.0 a.1
      after_sealing-Adds (done x) client adds =
          sealed-IsAccounted set n s.child_stdin s.pending_calls s.ledger_client.db_conn nonce
            status send file client.db_conn terminal adds h
      after_sealing-Adds (failed e) client adds =
          sealed-IsAccounted set n s.child_stdin s.pending_calls s.ledger_client.db_conn nonce
            status send file client.db_conn terminal adds h
      after_sealing-Adds panicked client adds =
          sealed-IsAccounted set n s.child_stdin s.pending_calls s.ledger_client.db_conn nonce
            status send file client.db_conn terminal adds h
      after_sealing-Adds (exited code) client adds =
          sealed-IsAccounted set n s.child_stdin s.pending_calls s.ledger_client.db_conn nonce
            status send file client.db_conn terminal adds h

      sealing-Kept :
          (o : Outcome String String) (client : LedgerClient)
          → Unstored s.ledger_client (o, client)
            ⊎ Stored (trim_end line) nonce status s.ledger_client (o, client)
          → let a = after_sealing line (o, client) s in Kept a.0 a.1
      sealing-Kept o client (inl (kept, not_done)) =
          after_sealing-Kept o client (ap (λ (c : LedgerClient). c.db_conn) kept)
      sealing-Kept o client (inr stored) =
          after_sealing-Adds o client
            (Stored-Adds set (trim_end line) nonce status s.ledger_client client o stored)

    take_call-Kept :
        (line : String) (res : Object) (id : String) (found : Option String) (s : Shared)
        → lookup id s.pending_calls ≡ found
        → IsAccounted set n s.child_stdin s.pending_calls s.ledger_client.db_conn send file 0
        → let a = take_call line res id found s in Kept a.0 a.1
    take_call-Kept line res id none s e h = h
    take_call-Kept line res id (some nonce) s e h =
        taken-IsAccounted set n s.child_stdin s.pending_calls s.ledger_client.db_conn nonce id send
          file e h

    ended-Kept :
        (env : ServerEnv) (line : String) (res : Object) (nonce : String) (s : Shared)
        → Kept (sealing line res nonce) s
        → (crashes : Bool)
        → let r =
            insert_local_event env.event
              (trim_end line)
              (terminal_status res)
              (some nonce)
              s.ledger_client in
          let a = if crashes then (ServerTask.closed, s, some 9) else after_sealing line r s in
          Kept a.0 a.1
    ended-Kept env line res nonce s h true =
        unsealed-IsAccounted set n s.child_stdin s.pending_calls s.ledger_client.db_conn send file _
          h
    ended-Kept env line res nonce s h false =
        let r =
          insert_local_event env.event (trim_end line) (terminal_status res) (some nonce)
            s.ledger_client in
        sealing-Kept line nonce (terminal_status res) s (terminal_status-IsTerminal res) h r.0 r.1 (
          insert_local_event-cases env.event (trim_end line) (terminal_status res) (some nonce)
            s.ledger_client)

    -- An action of the child's task keeps the account of a nonce.
    pub server_action-Kept :
        (env : ServerEnv) (input : String) (task : ServerTask) (s : Shared)
        → Kept task s
        → let a = server_action set env input task s in Kept a.0 a.1
    unfolding server_action
    server_action-Kept env input reading s h = rw (to_seal-read_answer n input) h
    server_action-Kept env input (matching line res id) s h =
        take_call-Kept line res id (lookup id s.pending_calls) s refl h
    server_action-Kept env input (sealing line res nonce) s h =
        ended-Kept env line res nonce s h set.crash_after_execution
    server_action-Kept env input (relaying line) s h = elim (Bool-cases env.client_accepts) [
      | inl e ↦ rw e h
      | inr e ↦ rw e h
    ]
    server_action-Kept env input closed s h = h
