-- ===== src/Ledger/Event.antt =====
-- `insert_local_event` of ledger_client.rs: an event is hashed, signed, encrypted and stored. A
-- payload is the text of a line, whose bytes are hashed.
pub mod Stored
pub mod Succeeds
pub mod RoundTrip
use autonomous_agent_account.Base.{
  ℕ, String, Bool, Option, none, some, ◌◇◌, show, and_then, unwrap_or, ok, err, Outcome, done,
  failed, panicked, exited, if◌then◌else◌,
}
use autonomous_agent_account.Base.Int.{show_int}
use autonomous_agent_account.External.Json.{Json}
use autonomous_agent_account.External.Crypto.{Crypto, Bytes}
use autonomous_agent_account.Ledger.Database.{AuditRow, insert_event}
use autonomous_agent_account.Ledger.Client.{LedgerClient}

pub record SealedEvent : Type 0 where
  pub payload_hash : String
  pub agent_id : String
  pub local_timestamp : ℕ
  pub nonce : String
  pub device_id : String
  pub device_signature : String
  pub payload_json : String
  pub action_status : String

-- What the outside gives to one call: the clock, a fresh UUID, twelve random bytes, whether SQLite
-- can write and what it says when it cannot, and whether the fault injection is switched on.
pub record EventEnv : Type 0 where
  pub now : ℕ
  pub fresh_uuid : String
  pub nonce_bytes : Bytes
  pub writable : Bool
  pub sql_error : String
  pub crash_after_db_insert : Bool

abbrev pub agent : String
agent = "autonomous-agent-01"

-- The text that the device signs.
abbrev pub seal_message : String → ℕ → String → String → String → String
seal_message payload_hash now device nonce status =
    payload_hash
    ◇ (":" ◇ (show now ◇ (":" ◇ (device ◇ (":" ◇ (nonce ◇ (":" ◇ (agent ◇ (":" ◇ status)))))))))

-- The columns of the INSERT; those of a receipt are NULL.
abbrev pub row_of : SealedEvent → Option String → AuditRow
row_of event id = record {
  nonce = event.nonce;
  action_status = event.action_status;
  payload_hash = event.payload_hash;
  agent_id = event.agent_id;
  local_timestamp = event.local_timestamp;
  device_id = event.device_id;
  device_signature = event.device_signature;
  payload_json = event.payload_json;
  receipt_signature = none;
  ledger_timestamp = none;
  json_rpc_id = id;
}

module _ ⦃J : Json⦄ where
  open J use {Value, from_str, get, is_number, is_string, as_i64, as_str, to_string}

  -- The text of an id; `none` is the panic of an `unwrap`.
  unfoldable pub id_text : Value → Option String
  unfolding show_int
  id_text id =
      if is_number id
      then and_then (as_i64 id) (λ n. some (show_int n))
      else if is_string id
      then as_str id
      else some (to_string id)

  -- `id_str` of a payload, or the panic.
  unfoldable pub json_rpc_id : String → Option (Option String)
  unfolding id_text
  json_rpc_id raw_payload = elim (and_then (from_str raw_payload) (λ val. get val "id")) [
    | none ↦ some none
    | some id ↦ and_then (id_text id) (λ t. some (some t))
  ]

module _ ⦃J : Json⦄ ⦃K : Crypto⦄ where
  open K use {sha256, hex_encode, sign, encrypt}

  abbrev pub event_nonce : EventEnv → Option String → String
  event_nonce env provided = unwrap_or provided env.fresh_uuid

  -- The event that is stored, from the encrypted payload.
  abbrev pub sealed_event : EventEnv → String → String → String → Bytes → LedgerClient → SealedEvent
  sealed_event env raw_payload status nonce cipher_text self =
      let payload_hash = hex_encode (sha256 raw_payload) in
      record {
        payload_hash = payload_hash;
        agent_id = agent;
        local_timestamp = env.now;
        nonce = nonce;
        device_id = self.device_id;
        device_signature =
            hex_encode (
              sign self.signing_key
                (seal_message payload_hash env.now self.device_id nonce status));
        payload_json = hex_encode env.nonce_bytes ◇ (":" ◇ hex_encode cipher_text);
        action_status = status;
      }

  -- The INSERT and what follows it.
  store_event : EventEnv → AuditRow → LedgerClient → Outcome String String × LedgerClient
  store_event env row self =
      let problem : Outcome String String × LedgerClient =
        (failed ("CRITICAL: Failed to durably store event: " ◇ env.sql_error), self) in
      if env.writable
      then elim (insert_event row self.db_conn) [
        | none ↦ problem
        | some db ↦ (
          if env.crash_after_db_insert then exited 9 else done row.nonce,
          record self { db_conn = db },
        )
      ]
      else problem

  unfoldable pub insert_local_event :
      EventEnv
      → String
      → String
      → Option String
      → LedgerClient
      → Outcome String String × LedgerClient
  unfolding store_event insert_event
  insert_local_event env raw_payload status provided self =
      elim (encrypt self.encryption_key env.nonce_bytes raw_payload) [
        | err e ↦ (failed ("Encryption failed: " ◇ e), self)
        | ok cipher_text ↦ elim (json_rpc_id raw_payload) [
          | none ↦ (panicked, self)
          | some id ↦
              store_event env
                (row_of
                  (sealed_event env raw_payload status (event_nonce env provided) cipher_text self)
                  id)
                self
        ]
      ]
