-- ===== src/Proxy/Tasks/Ends.antt =====
-- A call in flight has been requested and has not ended, so that its end can be stored.
use autonomous_agent_account.Base.{
  String, ◌≡◌, inl, inr, refl, true, false, Option, none, some, lookup, trim_end, arith, eq_refl,
  ok, is_some, if◌then◌else◌,
}
use autonomous_agent_account.External.Json.{Json}
use autonomous_agent_account.External.Crypto.{Crypto, Bytes}
use autonomous_agent_account.Ledger.Database.{AuditRow, Database, empty_database}
use autonomous_agent_account.Ledger.Database.Keys.{rows}
use autonomous_agent_account.Ledger.Client.{LedgerClient}
use autonomous_agent_account.Ledger.Event.{json_rpc_id}
use autonomous_agent_account.Ledger.Event.Succeeds.{with_row, insert_local_event-done}
use autonomous_agent_account.Ledger.Event.Stored.{IsSigned}
use autonomous_agent_account.Proxy.State.{Settings}
use autonomous_agent_account.Proxy.Server.{ServerEnv, terminal_status}
use autonomous_agent_account.Proxy.Server.Seal.{IsTerminal, terminal_status-IsTerminal}
use autonomous_agent_account.Proxy.Actions.Server.{sealing, relaying, server_action}
use autonomous_agent_account.Proxy.Relay.Pending.{in_flight-remove}
use autonomous_agent_account.Proxy.Tasks.{Tasks, Reach}
use autonomous_agent_account.Proxy.Tasks.Runs.{Reach-Accounted}

module _ ⦃J : Json⦄ ⦃K : Crypto⦄ where
  open J use {Object, map_get}
  open K use {encrypt}

  terminal_rows :
      (nonce status : String) (db : Database)
      → IsTerminal status
      → rows nonce "SEAL_FAILED" db ≡ 0
      → rows nonce "SEAL_COMPLETED" db ≡ 0
      → rows nonce status db ≡ 0
  terminal_rows nonce status db (inl e) f c = rw e f
  terminal_rows nonce status db (inr e) f c = rw e c

  module _ (set : Settings) (client : LedgerClient) (t : Tasks)
      (fresh : client.db_conn ≡ empty_database) (path : Reach set client t) where
    -- In every state that the interleaved tasks reach from an empty database, a nonce that is pending
    -- under any id has been requested, exactly once, and neither a failure nor a completion is stored
    -- for it.
    pending_requested :
        (id nonce : String)
        → lookup id t.shared.pending_calls ≡ some nonce
        → let db = t.shared.ledger_client.db_conn in
          (rows nonce "SEAL_REQUESTED" db ≡ 1)
          × (rows nonce "SEAL_FAILED" db ≡ 0)
          × (rows nonce "SEAL_COMPLETED" db ≡ 0)
    pending_requested id nonce found =
        let (g, h) = Reach-Accounted set nonce client t fresh path in
        let entry = in_flight-remove nonce id nonce t.shared.pending_calls found in
        let taken = rw (eq_refl nonce) at entry in
        (
          omega (arith, taken, h.once, h.ended),
          omega (arith, taken, h.once, h.ended),
          omega (arith, taken, h.once, h.ended),
        )

    rows-sealing :
        (line nonce : String) (res : Object)
        → t.server ≡ sealing line res nonce
        → rows nonce (terminal_status res) t.shared.ledger_client.db_conn ≡ 0
    rows-sealing line nonce res e =
        let (g, h) = Reach-Accounted set nonce client t fresh path in
        let one = rw (e, eq_refl nonce) at h.ended in
        terminal_rows nonce (terminal_status res) t.shared.ledger_client.db_conn
          (terminal_status-IsTerminal res) (omega (arith, one, h.once)) (omega (arith, one, h.once))

    -- In every state that the interleaved tasks reach from an empty database, if the child's task is
    -- about to seal an answer, no fault is injected, the cipher works, the id of the answer has a
    -- text, and SQLite writes, then its next action stores the end of the call, as a row behind the
    -- log with the call's nonce, SEAL_FAILED for an answer with an error and SEAL_COMPLETED for any
    -- other, and the device's signature over its columns, changes nothing else, and goes on to pass
    -- the answer to the client: the end never meets a key that is already there.
    pub sealing_succeeds :
        (env : ServerEnv) (input line nonce : String) (res : Object) (cipher : Bytes)
        (id : Option String)
        → t.server ≡ sealing line res nonce
        → set.crash_after_execution ≡ false
        → encrypt t.shared.ledger_client.encryption_key env.event.nonce_bytes (trim_end line)
          ≡ ok cipher
        → json_rpc_id (trim_end line) ≡ some id
        → env.event.writable ≡ true
        → env.event.crash_after_db_insert ≡ false
        → (row : AuditRow) × (row.nonce ≡ nonce)
          × (row.action_status
              ≡ (if is_some (map_get res "error") then "SEAL_FAILED" else "SEAL_COMPLETED"))
          × IsSigned t.shared.ledger_client (trim_end line) row
          × (server_action set env input t.server t.shared ≡ (
            relaying line,
            record (t.shared) { ledger_client = with_row row t.shared.ledger_client },
            none,
          ))
    unfolding server_action
    sealing_succeeds env input line nonce res cipher id e faultless c i writes survives =
        let (row, hn, hs, signed, stored) =
          insert_local_event-done env.event (trim_end line) (terminal_status res) nonce
            t.shared.ledger_client cipher id c i writes survives (rows-sealing line nonce res e) in
        (row, hn, hs, signed, rw e (simp (faultless, stored) refl))
