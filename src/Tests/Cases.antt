-- ===== src/Tests/Cases.antt =====
-- The data of the runs: a client over an empty database, and a ledger that grants and seals.
use autonomous_agent_account.Base.{String, true, false, none, some, [], ◌∷◌}
use autonomous_agent_account.Base.Int.{pos}
use autonomous_agent_account.External.Http.{Reply, Response, response}
use autonomous_agent_account.Ledger.Database.{AuditRow, empty_database}
use autonomous_agent_account.Ledger.Client.{LedgerClient}
use autonomous_agent_account.Ledger.Event.{EventEnv}
use autonomous_agent_account.Ledger.Receipt.{TxEnv}
use autonomous_agent_account.Ledger.Sync.{SyncEnv}
use autonomous_agent_account.Proxy.State.{Settings, Shared}
use autonomous_agent_account.Proxy.Client.{ClientEnv}
use autonomous_agent_account.Proxy.Server.{ServerEnv}
use autonomous_agent_account.Tests.Instances.{Value, json, crypto, number, text, object}

abbrev pub client : LedgerClient
client = record {
  signing_key = 1;
  device_id = "dev";
  ledger_url = "https://ledger";
  encryption_key = 5;
  ledger_pub_key = 3;
  lease_expires_at = none;
  db_conn = empty_database;
}

abbrev pub shared : Shared
shared = record { pending_calls = []; ledger_client = client; child_stdin = []; stdout = [] }

-- A reply that carries a lease until 100 and a receipt of time 60, both signed.
abbrev pub reply_body : Value
reply_body = object (
    ("expires_at", number (pos 100))
    ∷ ("lease_signature", text "signed by 3")
    ∷ ("receipt_signature", text "signed by 3")
    ∷ ("ledger_timestamp", number (pos 60))
    ∷ ("chain_hash", text "chain")
    ∷ [])

abbrev pub reply : Response
reply = record { is_success = true; status = 200; body = some reply_body }

abbrev pub post : String → Value → Reply
post url body = response reply

abbrev pub refusal : Response
refusal = record { is_success = false; status = 500; body = none }

abbrev pub refuse : String → Value → Reply
refuse url body = response refusal

abbrev pub event : EventEnv
event = record {
  now = 50;
  fresh_uuid = "fresh";
  nonce_bytes = 0 ∷ [];
  writable = true;
  sql_error = "locked";
  crash_after_db_insert = false;
}

abbrev pub settings : Settings
settings = record { policy_json = none; device_id = some "dev"; crash_after_execution = false }

abbrev pub client_env : ClientEnv
client_env = record {
  child_accepts = true;
  readable = true;
  lease_now = 50;
  post = post;
  event = event;
}

abbrev pub server_env : ServerEnv
server_env = record { client_accepts = true; event = event }

abbrev pub tx : TxEnv
tx = record { begins = true; inserts = true; updates = true; commits = true; sql_error = "" }

abbrev pub sync_env : SyncEnv
sync_env = record { readable = true; post = post; tx = tx }

-- An event that waits for its receipt.
abbrev pub waiting : AuditRow
waiting = record {
  nonce = "n";
  action_status = "SEAL_REQUESTED";
  payload_hash = "h";
  agent_id = "a";
  local_timestamp = 40;
  device_id = "dev";
  device_signature = "s";
  payload_json = "p";
  receipt_signature = none;
  ledger_timestamp = none;
  json_rpc_id = none;
}

abbrev pub waiting_client : LedgerClient
waiting_client = record client {
  db_conn = record { local_audit_log = waiting ∷ []; receipts = [] };
}
