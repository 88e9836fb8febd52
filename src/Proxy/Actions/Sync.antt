-- ===== src/Proxy/Actions/Sync.antt =====
-- `sync_queue`, a shared access at a time: it selects an event, lets go of the database while it
-- waits for the ledger, and then stores what the reply holds.
use autonomous_agent_account.Base.{Option, none, some, ◌◇◌, if◌then◌else◌}
use autonomous_agent_account.External.Json.{Json}
use autonomous_agent_account.External.Crypto.{Crypto}
use autonomous_agent_account.Ledger.Database.{AuditRow, oldest_unsealed}
use autonomous_agent_account.Ledger.Client.{LedgerClient}
use autonomous_agent_account.Ledger.Sync.{SyncEnv, event_of, seal_body, seal_reply}

module _ ⦃J : Json⦄ ⦃K : Crypto⦄ where
  -- Before the SELECT the task holds nothing; afterwards it holds the row that it sends.
  unfoldable pub sync_action :
      SyncEnv → Option AuditRow → LedgerClient → Option AuditRow × LedgerClient
  sync_action env none self =
      (if env.readable then oldest_unsealed self.db_conn.local_audit_log else none, self)
  sync_action env (some row) self = (
    none,
    seal_reply env.tx (event_of row)
        (env.post (self.ledger_url ◇ "/seal") (seal_body (event_of row))) self,
  )
