-- ===== src/Proxy/Relay/Runs.antt =====
-- What holds of every state that the relay reaches, over any lines, replies, failures, crashes and
-- restarts.
use autonomous_agent_account.Base.{◌+◌, ◌≤◌, String, ◌≡◌, arith}
use autonomous_agent_account.External.Json.{Json}
use autonomous_agent_account.External.Crypto.{Crypto}
use autonomous_agent_account.Ledger.Database.{empty_database}
use autonomous_agent_account.Ledger.Database.Keys.{rows}
use autonomous_agent_account.Ledger.Client.{LedgerClient}
use autonomous_agent_account.Proxy.State.{Settings}
use autonomous_agent_account.Proxy.Relay.{Relay, Reach, here, next}
use autonomous_agent_account.Proxy.Relay.Account.{calls}
use autonomous_agent_account.Proxy.Relay.Steps.{Balanced, Step-Balanced}

module _ ⦃J : Json⦄ ⦃K : Crypto⦄ (set : Settings) (nonce : String) where
  Reach-Balanced :
      (client : LedgerClient) (r : Relay)
      → client.db_conn ≡ empty_database
      → Reach set client r
      → Balanced set nonce r.shared
  Reach-Balanced client _ e here =
      rw e (record { sent = omega arith; once = omega arith; ended = omega arith })
  Reach-Balanced client _ e (next {r} {r'} path step) =
      Step-Balanced set nonce r r' step (Reach-Balanced client r e path)

  module _ (client : LedgerClient) (r : Relay) (fresh : client.db_conn ≡ empty_database)
      (path : Reach set client r) where
    -- From an empty database, whatever lines come in whatever order, whatever the ledger, SQLite and
    -- the writes do, and across any number of crashes and restarts, at most one line that is a tool
    -- call under a given nonce is sent to a child, over all the runs together.
    pub forwarded_once : calls set nonce r.shared.child_stdin ≤ 1
    forwarded_once = omega (
      arith,
      (Reach-Balanced client r fresh path).sent,
      (Reach-Balanced client r fresh path).once,
    )

    -- In every state that the relay reaches from an empty database, a tool call that a child has
    -- been sent under a nonce stands in the local log as requested, exactly once.
    pub forwarded_recorded :
        1 ≤ calls set nonce r.shared.child_stdin
        → rows nonce "SEAL_REQUESTED" r.shared.ledger_client.db_conn ≡ 1
    forwarded_recorded sent = omega (
      arith,
      sent,
      (Reach-Balanced client r fresh path).sent,
      (Reach-Balanced client r fresh path).once,
    )

    -- In every state that the relay reaches from an empty database, the ends that the log has for a
    -- nonce, failed or completed, are at most one, and there is one only if the request is in the log.
    pub ended_once :
        let db = r.shared.ledger_client.db_conn in
        (rows nonce "SEAL_FAILED" db + rows nonce "SEAL_COMPLETED" db
          ≤ rows nonce "SEAL_REQUESTED" db)
        × (rows nonce "SEAL_REQUESTED" db ≤ 1)
    ended_once = let h = Reach-Balanced client r fresh path in (omega (arith, h.ended), h.once)
