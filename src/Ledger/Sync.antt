-- ===== src/Ledger/Sync.antt =====
-- `sync_queue` of ledger_client.rs: the oldest event without a receipt is sent to the ledger.
pub mod Outcome
pub mod Progress
pub mod Flush
pub mod Signed
pub mod Sealed
pub mod Range
use autonomous_agent_account.Base.{
  ℕ, zero, suc, String, Bool, Option, none, some, List, [], ◌∷◌, ◌◇◌, and_then, if◌then◌else◌,
}
use autonomous_agent_account.Base.Int.{ℤ, pos, to_u64}
use autonomous_agent_account.External.Json.{Json}
use autonomous_agent_account.External.Crypto.{Crypto}
use autonomous_agent_account.External.Http.{Reply, Response, network_error, response}
use autonomous_agent_account.Ledger.Database.{AuditRow, oldest_unsealed}
use autonomous_agent_account.Ledger.Client.{LedgerClient}
use autonomous_agent_account.Ledger.Event.{SealedEvent}
use autonomous_agent_account.Ledger.Receipt.{TxEnv, verify_and_store_receipt}

-- What the SELECT reads back from a row.
abbrev pub event_of : AuditRow → SealedEvent
event_of r = record {
  payload_hash = r.payload_hash;
  agent_id = r.agent_id;
  local_timestamp = r.local_timestamp;
  nonce = r.nonce;
  device_id = r.device_id;
  device_signature = r.device_signature;
  payload_json = r.payload_json;
  action_status = r.action_status;
}

module _ ⦃J : Json⦄ ⦃K : Crypto⦄ where
  open J use {Value, get, as_str, as_i64, string, int, object}

  -- The body sent to `/seal`. The payload itself is not part of it.
  abbrev pub seal_body : SealedEvent → Value
  seal_body event = object (
      ("payload_hash", string event.payload_hash)
      ∷ ("agent_id", string event.agent_id)
      ∷ ("local_timestamp", int (pos event.local_timestamp))
      ∷ ("nonce", string event.nonce)
      ∷ ("device_id", string event.device_id)
      ∷ ("device_signature", string event.device_signature)
      ∷ ("action_status", string event.action_status)
      ∷ [])

  -- The three fields of a receipt; the result of storing it is dropped.
  take_receipt :
      TxEnv → SealedEvent → Option String → Option ℤ → Option String → LedgerClient → LedgerClient
  take_receipt tx event (some sig) (some ts) (some ch) self =
      (verify_and_store_receipt tx event sig (to_u64 ts) ch event.action_status self).1
  take_receipt tx event _ _ _ self = self

  seal_body_reply : TxEnv → SealedEvent → Option Value → LedgerClient → LedgerClient
  unfolding take_receipt
  seal_body_reply tx event none self = self
  seal_body_reply tx event (some json) self =
      take_receipt tx event (and_then (get json "receipt_signature") as_str)
        (and_then (get json "ledger_timestamp") as_i64) (and_then (get json "chain_hash") as_str)
        self

  unfoldable pub seal_reply : TxEnv → SealedEvent → Reply → LedgerClient → LedgerClient
  unfolding seal_body_reply
  seal_reply tx event network_error self = self
  seal_reply tx event (response r) self =
      if r.is_success then seal_body_reply tx event r.body self else self

  -- `readable` is whether SQLite prepared and ran the query.
  unfoldable pub sync_queue : Bool → (String → Value → Reply) → TxEnv → LedgerClient → LedgerClient
  unfolding seal_reply oldest_unsealed
  sync_queue readable post tx self =
      elim (if readable then oldest_unsealed self.db_conn.local_audit_log else none) [
        | none ↦ self
        | some row ↦
            seal_reply tx (event_of row)
              (post (self.ledger_url ◇ "/seal") (seal_body (event_of row))) self
      ]

  pub record SyncEnv : Type 0 where
    pub readable : Bool
    pub post : String → Value → Reply
    pub tx : TxEnv

  -- `sync_queue` a number of times, each with its own surroundings.
  unfoldable pub sync_rounds : ℕ → (ℕ → SyncEnv) → LedgerClient → LedgerClient
  sync_rounds zero envs self = self
  sync_rounds (suc n) envs self =
      sync_rounds n envs (sync_queue (envs n).readable (envs n).post (envs n).tx self)
