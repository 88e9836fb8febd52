-- ===== src/Proxy/Tasks/Life/Refined.antt =====
-- The interleaved tasks refine the life of a call.
use autonomous_agent_account.Base.{String, ◌≡◌, ap, arith}
use autonomous_agent_account.External.Json.{Json}
use autonomous_agent_account.External.Crypto.{Crypto}
use autonomous_agent_account.Ledger.Database.{empty_database}
use autonomous_agent_account.Ledger.Database.Keys.{rows}
use autonomous_agent_account.Ledger.Client.{LedgerClient}
use autonomous_agent_account.Ledger.Sync.Outcome.{rows-Received}
use autonomous_agent_account.Proxy.State.{Settings, Shared}
use autonomous_agent_account.Proxy.Relay.Account.{Stored-Adds}
use autonomous_agent_account.Proxy.Tasks.{Tasks, Step, Reach}
use autonomous_agent_account.Proxy.Tasks.Writes.{Wrote, stays, sends, stores}
use autonomous_agent_account.Proxy.Tasks.Steps.{Effect, writes, selects, receives, Step-Effect}
use autonomous_agent_account.Proxy.Tasks.Runs.{Accounted, Step-Accounted, Reach-Accounted}
use autonomous_agent_account.Proxy.Tasks.Life.{
  Advance, stay, life, life_in, Fits, line_sent, same_rows, event_stored,
}

module _ ⦃J : Json⦄ ⦃K : Crypto⦄ (set : Settings) (n : String) where
  abbrev FitsAll : Shared → Type 0
  FitsAll s = Fits set n s.child_stdin s.ledger_client.db_conn

  Wrote-Advance :
      (s s' : Shared)
      → Wrote s s'
      → FitsAll s
      → FitsAll s'
      → Advance
          (life_in set n s.child_stdin s.ledger_client.db_conn)
          (life_in set n s'.child_stdin s'.ledger_client.db_conn)
  Wrote-Advance s s' (stays child same keys) before after =
      same_rows set n s.child_stdin s.ledger_client.db_conn s'.child_stdin s'.ledger_client.db_conn
        child (ap (rows n "SEAL_REQUESTED") same) (ap (rows n "SEAL_FAILED") same)
        (ap (rows n "SEAL_COMPLETED") same)
  Wrote-Advance s s' (sends line child same) before after =
      let db_same = ap (λ (c : LedgerClient). c.db_conn) same in
      rw (child, db_same)
        (line_sent set n s.child_stdin s.ledger_client.db_conn line (rw (child, db_same) at after))
  Wrote-Advance s s' (stores raw nonce status o which child stored) before after = rw child (
      event_stored set n s.child_stdin s.ledger_client.db_conn nonce s'.ledger_client.db_conn before
        (rw child at after) status which
        (Stored-Adds set raw nonce status s.ledger_client s'.ledger_client o stored))

  Accounted-Fits : (t : Tasks) → Accounted set n t → FitsAll t.shared
  Accounted-Fits t (g, h) = (omega (arith, h.sent), h.once, omega (arith, h.ended))

  Effect-Advance :
      (t t' : Tasks)
      → Effect t t'
      → FitsAll t.shared
      → FitsAll t'.shared
      → Advance (life set n t) (life set n t')
  Effect-Advance t t' (writes wrote hb hf) before after =
      Wrote-Advance t.shared t'.shared wrote before after
  Effect-Advance t t' (selects row same found hb hf) before after =
      stay (ap (λ (s : Shared). life_in set n s.child_stdin s.ledger_client.db_conn) same)
  Effect-Advance t t' (receives row held child received hb hf) before after =
      let kept = λ (status : String).
        rows-Received n status row t.shared.ledger_client t'.shared.ledger_client received in
      same_rows set n t.shared.child_stdin t.shared.ledger_client.db_conn t'.shared.child_stdin
        t'.shared.ledger_client.db_conn child (kept "SEAL_REQUESTED") (kept "SEAL_FAILED")
        (kept "SEAL_COMPLETED")

  module _ (client : LedgerClient) (fresh : client.db_conn ≡ empty_database) where
    -- From an empty database, every step of the interleaved tasks, a crash and a new start included,
    -- leaves the four counts of a nonce (requests stored, lines sent, failures and completions
    -- stored) as they are, or raises exactly one of them from 0 to 1: the request only while all are
    -- 0, a sending only after the request, and a failure or a completion only after the request and
    -- while there is neither.
    pub Step-Advance :
        (t t' : Tasks) → Reach set client t → Step set t t' → Advance (life set n t) (life set n t')
    Step-Advance t t' path step =
        let h = Reach-Accounted set n client t fresh path in
        Effect-Advance t t' (Step-Effect set t t' step) (Accounted-Fits t h)
          (Accounted-Fits t' (Step-Accounted set n t t' step h))
