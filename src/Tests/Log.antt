-- ===== src/Tests/Log.antt =====
-- The theorems on the ledger client at concrete events, leases and receipts.
use autonomous_agent_account.Base.{
  ℕ, ◌-◌, String, ◌≡◌, ◌⊎◌, refl, true, Option, none, some, List, [], ◌∷◌, arith, length, ◌==◌,
  if◌then◌else◌, unwrap_or,
}
use autonomous_agent_account.Base.Int.{pos}
use autonomous_agent_account.Ledger.Database.{AuditRow, Database, empty_database, oldest_unsealed}
use autonomous_agent_account.Ledger.Database.Keys.{HasUniqueKeys}
use autonomous_agent_account.Ledger.Database.Oldest.{IsOldest, oldest_unsealed-IsOldest}
use autonomous_agent_account.Ledger.Client.{LedgerClient, new}
use autonomous_agent_account.Ledger.Client.Startup.{IsSecure, new-IsSecure}
use autonomous_agent_account.Ledger.Lease.{ensure_lease}
use autonomous_agent_account.Ledger.Lease.Replies.{GrantResult, ensure_lease-GrantResult}
use autonomous_agent_account.Ledger.Event.{insert_local_event}
use autonomous_agent_account.Ledger.Event.Stored.{Stored, Unstored, insert_local_event-cases}
use autonomous_agent_account.Ledger.Receipt.{verify_and_store_receipt}
use autonomous_agent_account.Ledger.Receipt.Verified.{
  ReceiptResult, verify_and_store_receipt-ReceiptResult,
}
use autonomous_agent_account.Ledger.Receipt.Tables.{ReceiptsMatch}
use autonomous_agent_account.Ledger.Sync.{event_of, sync_queue, sync_rounds}
use autonomous_agent_account.Ledger.Sync.Outcome.{Synced, sync_queue-Synced}
use autonomous_agent_account.Ledger.Sync.Progress.{unsealed, Accepts}
use autonomous_agent_account.Ledger.Sync.Flush.{AllAccepted, unsealed-sync_rounds}
use autonomous_agent_account.Tests.Instances.{json, crypto, zeros}
use autonomous_agent_account.Tests.Cases.{
  client, waiting, waiting_client, post, reply, reply_body, event, tx, sync_env,
}

insert_local_event-cases_example :
    Unstored client (insert_local_event event "payload" "SEAL_REQUESTED" (some "n") client)
    ⊎ Stored "payload" "n" "SEAL_REQUESTED" client
        (insert_local_event event "payload" "SEAL_REQUESTED" (some "n") client)
insert_local_event-cases_example =
    insert_local_event-cases event "payload" "SEAL_REQUESTED" (some "n") client

ensure_lease-GrantResult_example : GrantResult post 50 client (ensure_lease post 50 client)
ensure_lease-GrantResult_example = ensure_lease-GrantResult post 50 client

verify_and_store_receipt-ReceiptResult_example :
    ReceiptResult (event_of waiting) "signed by 3" 60 "chain" "SEAL_REQUESTED" waiting_client (
      verify_and_store_receipt tx
        (event_of waiting)
        "signed by 3"
        60
        "chain"
        "SEAL_REQUESTED"
        waiting_client)
verify_and_store_receipt-ReceiptResult_example =
    verify_and_store_receipt-ReceiptResult tx (event_of waiting) "signed by 3" 60 "chain"
      "SEAL_REQUESTED" waiting_client

sync_queue-Synced_example : Synced waiting_client (sync_queue true post tx waiting_client)
sync_queue-Synced_example = sync_queue-Synced true post tx waiting_client

waiting_unique : HasUniqueKeys waiting_client.db_conn
waiting_unique n s = ground arith

waiting_match : ReceiptsMatch waiting_client.db_conn
waiting_match n s = ground arith

abbrev pub accepts : (row : AuditRow) → Accepts post "https://ledger" 3 row
accepts row = record {
  reply = reply;
  json = reply_body;
  sig_hex = "signed by 3";
  ts = pos 60;
  chain = "chain";
  sig = 3 ∷ zeros 63;
  sent = refl;
  success = refl;
  body = refl;
  has_signature = refl;
  has_timestamp = refl;
  in_range = refl;
  has_chain = refl;
  decodes = refl;
  long = refl;
  verifies = refl;
}

all_accepted : AllAccepted (λ n. sync_env) waiting_client
all_accepted n = (refl, (refl, refl, refl, refl), accepts)

unsealed-sync_rounds_example :
    unsealed (sync_rounds 10 (λ n. sync_env) waiting_client).db_conn
    ≡ unsealed waiting_client.db_conn - 10
unsealed-sync_rounds_example =
    unsealed-sync_rounds 10 (λ n. sync_env) waiting_client all_accepted waiting_unique waiting_match

pub waiting_oldest : oldest_unsealed waiting_client.db_conn.local_audit_log ≡ some waiting
unfolding oldest_unsealed
waiting_oldest = refl

oldest_unsealed-IsOldest_example : IsOldest (waiting ∷ []) (oldest_unsealed (waiting ∷ []))
oldest_unsealed-IsOldest_example = oldest_unsealed-IsOldest (waiting ∷ [])

-- An environment with every variable; the three keys are the same text.
abbrev var : String → Option String
var name =
    if name == "LEDGER_URL"
    then some "https://ledger"
    else if name == "ACCOUNTABILITY_QUEUE_DB_PATH"
    then some "queue.db"
    else some "three"

abbrev parse_url : String → Option (String × Option String)
parse_url url = some ("https", some "ledger")

abbrev open_db : String → Option Database
open_db path = some empty_database

abbrev started : LedgerClient
started = record {
  signing_key = 3;
  device_id = "three";
  ledger_url = "https://ledger";
  encryption_key = 3;
  ledger_pub_key = 3;
  lease_expires_at = none;
  db_conn = empty_database;
}

starts : new var parse_url open_db ≡ some started
unfolding new
starts = refl

new-IsSecure_example :
    (scheme : String) × (host : Option String) × (key_hex path : String) × (key_bytes : List ℕ)
    × (parse_url started.ledger_url ≡ some (scheme, host))
    × IsSecure scheme (unwrap_or host "")
    × (var "LEDGER_PUBLIC_KEY" ≡ some key_hex)
    × (crypto.hex_decode key_hex ≡ some key_bytes)
    × (length key_bytes ≡ 32)
    × (crypto.verifying_key key_bytes ≡ some started.ledger_pub_key)
    × (var "ACCOUNTABILITY_QUEUE_DB_PATH" ≡ some path)
    × (open_db path ≡ some started.db_conn)
    × (started.lease_expires_at ≡ none)
new-IsSecure_example = new-IsSecure var parse_url open_db started starts
