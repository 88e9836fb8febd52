-- ===== src/Proxy/Tasks.antt =====
-- stdio_proxy.rs, `relay_with_intercept`: the two loops, the background synchronisation and the last
-- rounds of it as tasks over one state, interleaved in any order at each shared access, and crashes
-- at any point with a new start over the same database.
pub mod Account
pub mod Reads
pub mod Moves
pub mod Seals
pub mod Writes
pub mod Steps
pub mod Log
pub mod Runs
pub mod Life
pub mod Flushed
pub mod Ends
pub mod Rounds
use autonomous_agent_account.Base.{ℕ, String, ◌≡◌, Option, none, some, List, []}
use autonomous_agent_account.External.Json.{Json}
use autonomous_agent_account.External.Crypto.{Crypto}
use autonomous_agent_account.Ledger.Database.{AuditRow}
use autonomous_agent_account.Ledger.Client.{LedgerClient}
use autonomous_agent_account.Ledger.Sync.{SyncEnv}
use autonomous_agent_account.Proxy.State.{Settings, Shared}
use autonomous_agent_account.Proxy.Client.{ClientEnv}
use autonomous_agent_account.Proxy.Server.{ServerEnv}
use autonomous_agent_account.Proxy.Actions.Client.{Acted, ClientTask, client_action}
use autonomous_agent_account.Proxy.Actions.Server.{ServerTask, server_action}
use autonomous_agent_account.Proxy.Actions.Sync.{sync_action}

module _ ⦃J : Json⦄ ⦃K : Crypto⦄ where
  -- `background` and `final` are the events that the two callers of `sync_queue` have selected.
  pub record Tasks : Type 0 where
    pub shared : Shared
    pub client : ClientTask
    pub server : ServerTask
    pub background : Option AuditRow
    pub final : Option AuditRow
    pub exit_code : Option ℕ

  -- A start of the process over a database. `child` and `out` are the lines written before it.
  abbrev pub started : LedgerClient → List String → List String → Tasks
  started client child out = record {
    shared = record {
      pending_calls = [];
      ledger_client = client;
      child_stdin = child;
      stdout = out;
    };
    client = ClientTask.reading;
    server = ServerTask.reading;
    background = none;
    final = none;
    exit_code = none;
  }

  abbrev pub client_acted : Tasks → Acted ClientTask → Tasks
  client_acted t (task, s, code) = record t { client = task; shared = s; exit_code = code }

  abbrev pub server_acted : Tasks → Acted ServerTask → Tasks
  server_acted t (task, s, code) = record t { server = task; shared = s; exit_code = code }

  abbrev pub background_acted : Tasks → Option AuditRow × LedgerClient → Tasks
  background_acted t (row, client) = record t {
    background = row;
    shared = record (t.shared) { ledger_client = client };
  }

  abbrev pub final_acted : Tasks → Option AuditRow × LedgerClient → Tasks
  final_acted t (row, client) = record t {
    final = row;
    shared = record (t.shared) { ledger_client = client };
  }

  -- The process dies, or is killed, and starts again in the same environment: what it kept in memory
  -- is gone.
  abbrev pub reborn : Tasks → Tasks
  reborn t =
      started (record (t.shared.ledger_client) { lease_expires_at = none }) t.shared.child_stdin
        t.shared.stdout

  -- One shared access of one task, or a crash. What the outside gives is new at each access.
  pub data Step (set : Settings) (t : Tasks) : Tasks → Type 0 where
    client_step :
        (env : ClientEnv) (input : String)
        → t.exit_code ≡ none
        → Step set t (client_acted t (client_action set env input t.client t.shared))
    server_step :
        (env : ServerEnv) (input : String)
        → t.exit_code ≡ none
        → Step set t (server_acted t (server_action set env input t.server t.shared))
    background_step :
        (env : SyncEnv)
        → t.exit_code ≡ none
        → Step set t (background_acted t (sync_action env t.background t.shared.ledger_client))
    final_step :
        (env : SyncEnv)
        → t.exit_code ≡ none
        → Step set t (final_acted t (sync_action env t.final t.shared.ledger_client))
    crash : Step set t (reborn t)

  pub data Reach (set : Settings) (client : LedgerClient) : Tasks → Type 0 where
    here : Reach set client (started client [] [])
    next : {t t' : Tasks} → Reach set client t → Step set t t' → Reach set client t'
