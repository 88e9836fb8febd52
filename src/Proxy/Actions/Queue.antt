-- ===== src/Proxy/Actions/Queue.antt =====
-- `sync_queue` is its two actions with nothing in between.
use autonomous_agent_account.Base.{◌≡◌, refl, inl, inr, Option, none, Bool-cases, Option-cases}
use autonomous_agent_account.External.Json.{Json}
use autonomous_agent_account.External.Crypto.{Crypto}
use autonomous_agent_account.Ledger.Database.{AuditRow, oldest_unsealed}
use autonomous_agent_account.Ledger.Client.{LedgerClient}
use autonomous_agent_account.Ledger.Sync.{SyncEnv, sync_queue}
use autonomous_agent_account.Proxy.Actions.Sync.{sync_action}

module _ ⦃J : Json⦄ ⦃K : Crypto⦄ where
  unfoldable pub sync_actions : SyncEnv → LedgerClient → Option AuditRow × LedgerClient
  unfolding sync_action
  sync_actions env self = let first = sync_action env none self in sync_action env first.0 first.1

  -- The SELECT of sync_queue followed by its request and transaction, with nothing in between, leaves
  -- no event selected, and the client as one call of sync_queue leaves it.
  pub sync_actions-sync_queue :
      (env : SyncEnv) (self : LedgerClient)
      → sync_actions env self ≡ (none, sync_queue env.readable env.post env.tx self)
  unfolding sync_actions sync_queue
  sync_actions-sync_queue env self = elim (Bool-cases env.readable) [
    | inr r ↦ rw (r, sync_actions, sync_queue) refl
    | inl r ↦ elim (Option-cases (oldest_unsealed self.db_conn.local_audit_log)) [
      | inl e ↦ rw (r, e, sync_actions, sync_queue, e) refl
      | inr (row, e) ↦ rw (r, e, sync_actions, sync_queue) refl
    ]
  ]
