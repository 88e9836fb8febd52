-- ===== src/Proxy/Relay.antt =====
-- stdio_proxy.rs, `relay_with_intercept`: the two tasks and the background synchronisation as steps
-- of one machine, and the last rounds before the process ends. Each step is one round of a loop.
pub mod Pending
pub mod Account
pub mod Steps
pub mod Runs
pub mod Log
use autonomous_agent_account.Base.{ℕ, String, Bool, true, false, ◌≡◌, Option, none, some, List, []}
use autonomous_agent_account.External.Json.{Json}
use autonomous_agent_account.External.Crypto.{Crypto}
use autonomous_agent_account.Ledger.Client.{LedgerClient}
use autonomous_agent_account.Ledger.Sync.{SyncEnv, sync_queue, sync_rounds}
use autonomous_agent_account.Proxy.State.{Settings, Flow, continue, break, panic, exit, Shared}
use autonomous_agent_account.Proxy.Client.{ClientEnv, client_line}
use autonomous_agent_account.Proxy.Server.{ServerEnv, server_line}

module _ ⦃K : Crypto⦄ where
  -- Which loops still run, and the code if the process has ended.
  pub record Relay : Type 0 where
    pub shared : Shared
    pub client_open : Bool
    pub server_open : Bool
    pub exit_code : Option ℕ

  abbrev pub start : LedgerClient → Relay
  start client = record {
    shared = record { pending_calls = []; ledger_client = client; child_stdin = []; stdout = [] };
    client_open = true;
    server_open = true;
    exit_code = none;
  }

  -- The end of one round of `parent_to_child`. A break and a panic both close the child's input.
  unfoldable pub after_client : Relay → Flow × Shared → Relay
  after_client r (continue, s) = record r { shared = s }
  after_client r (break, s) = record r { shared = s; client_open = false }
  after_client r (panic, s) = record r { shared = s; client_open = false }
  after_client r (exit code, s) = record r { shared = s; exit_code = some code }

  -- The end of one round of `child_to_parent`.
  unfoldable pub after_server : Relay → Flow × Shared → Relay
  after_server r (continue, s) = record r { shared = s }
  after_server r (break, s) = record r { shared = s; server_open = false }
  after_server r (panic, s) = record r { shared = s; server_open = false }
  after_server r (exit code, s) = record r { shared = s; exit_code = some code }

module _ ⦃J : Json⦄ ⦃K : Crypto⦄ where
  unfoldable pub synced : SyncEnv → Relay → Relay
  synced env r = record r {
    shared = record (r.shared) {
      ledger_client = sync_queue env.readable env.post env.tx r.shared.ledger_client;
    };
  }

  -- The process starts again over the same database and in the same environment: what it kept in
  -- memory is gone. The lines that
  -- were written before stay in the record of what the tools and the client have seen.
  unfoldable pub restarted : Relay → Relay
  restarted r = record r {
    shared = record (r.shared) {
      pending_calls = [];
      ledger_client = record (r.shared.ledger_client) { lease_expires_at = none };
    };
    client_open = true;
    server_open = true;
    exit_code = none;
  }

  -- The rounds of the loop at the end of `relay_with_intercept`.
  abbrev pub final_rounds : ℕ
  final_rounds = 10

  unfoldable pub flush : (ℕ → SyncEnv) → LedgerClient → LedgerClient
  unfolding sync_rounds
  flush envs client = sync_rounds final_rounds envs client

  -- A crash inside a round, after what it stored and before what it writes.
  abbrev pub crashed : Relay → Shared → Relay
  crashed r s =
      restarted (record r { shared = record (r.shared) { ledger_client = s.ledger_client } })

  -- One step: a line from the client, a line from the child, a synchronisation, or a crash with a
  -- new start, between two rounds or inside one.
  pub data Step (set : Settings) : Relay → Relay → Type 0 where
    client_step :
        {r : Relay} (env : ClientEnv) (line : String)
        → r.client_open ≡ true
        → r.exit_code ≡ none
        → Step set r (after_client r (client_line set env line r.shared))
    server_step :
        {r : Relay} (env : ServerEnv) (line : String)
        → r.server_open ≡ true
        → r.exit_code ≡ none
        → Step set r (after_server r (server_line set env line r.shared))
    sync_step : {r : Relay} (env : SyncEnv) → r.exit_code ≡ none → Step set r (synced env r)
    restart : {r : Relay} → Step set r (restarted r)
    client_crash :
        {r : Relay} (env : ClientEnv) (line : String)
        → Step set r (crashed r (client_line set env line r.shared).1)
    server_crash :
        {r : Relay} (env : ServerEnv) (line : String)
        → Step set r (crashed r (server_line set env line r.shared).1)

  pub data Reach (set : Settings) (client : LedgerClient) : Relay → Type 0 where
    here : Reach set client (start client)
    next : {r r' : Relay} → Reach set client r → Step set r r' → Reach set client r'
