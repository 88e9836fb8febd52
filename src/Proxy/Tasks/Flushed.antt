-- ===== src/Proxy/Tasks/Flushed.antt =====
-- The ten rounds of the synchronisation at the end of the relay.
use autonomous_agent_account.Base.{ℕ, ◌-◌, ◌≡◌}
use autonomous_agent_account.External.Json.{Json}
use autonomous_agent_account.External.Crypto.{Crypto}
use autonomous_agent_account.Ledger.Database.{empty_database}
use autonomous_agent_account.Ledger.Client.{LedgerClient}
use autonomous_agent_account.Ledger.Sync.{SyncEnv}
use autonomous_agent_account.Ledger.Sync.Progress.{unsealed}
use autonomous_agent_account.Ledger.Sync.Flush.{AllAccepted, unsealed-sync_rounds}
use autonomous_agent_account.Proxy.State.{Settings}
use autonomous_agent_account.Proxy.Relay.{flush}
use autonomous_agent_account.Proxy.Tasks.{Tasks, Reach}
use autonomous_agent_account.Proxy.Tasks.Log.Reached.{reached-IsConsistent}

module _ ⦃J : Json⦄ ⦃K : Crypto⦄ where
  -- In any state that the interleaved tasks reach from an empty database, if every later round reads
  -- the database and runs its transaction, and the ledger accepts each event that it is sent, then
  -- the rounds at the end of the relay take ten events from the queue, or all if there are fewer.
  pub reached-flush :
      (set : Settings) (client : LedgerClient) (t : Tasks) (envs : ℕ → SyncEnv)
      → client.db_conn ≡ empty_database
      → Reach set client t
      → AllAccepted envs t.shared.ledger_client
      → unsealed (flush envs t.shared.ledger_client).db_conn
        ≡ unsealed t.shared.ledger_client.db_conn - 10
  unfolding flush
  reached-flush set client t envs fresh path good =
      let (unique, agree) = reached-IsConsistent client set t fresh path in
      unsealed-sync_rounds 10 envs t.shared.ledger_client good unique agree
