-- ===== src/Ledger/Receipt.antt =====
-- `verify_and_store_receipt` of ledger_client.rs: a receipt is checked against the ledger's key and
-- stored in one transaction.
pub mod Verified
pub mod Tables
use autonomous_agent_account.Base.{
  ◌&&◌, ◌^◌, ltb, ℕ, String, Bool, Option, none, some, ◌◇◌, nat_eq, length, show, and_then, Result,
  ok, err, if◌then◌else◌,
}
use autonomous_agent_account.External.Crypto.{Crypto}
use autonomous_agent_account.Ledger.Database.{ReceiptRow, Database, insert_receipt, update_receipt}
use autonomous_agent_account.Ledger.Client.{LedgerClient}
use autonomous_agent_account.Ledger.Event.{SealedEvent}

-- Which statements of a transaction SQLite can run, and what it says otherwise.
pub record TxEnv : Type 0 where
  pub begins : Bool
  pub inserts : Bool
  pub updates : Bool
  pub commits : Bool
  pub sql_error : String

-- The text that the ledger signs.
abbrev pub receipt_message : SealedEvent → ℕ → String → String → String
receipt_message event ledger_ts chain_hash status =
    event.payload_hash
    ◇ (":"
        ◇ (event.agent_id
            ◇ (":"
                ◇ (show event.local_timestamp
                    ◇ (":"
                        ◇ (event.device_id
                            ◇ (":"
                                ◇ (event.nonce
                                    ◇ (":"
                                        ◇ (event.device_signature
                                            ◇ (":"
                                                ◇ (show ledger_ts
                                                    ◇ (":"
                                                        ◇ (chain_hash ◇ (":" ◇ status)))))))))))))))

-- The transaction: it commits as a whole, or the database stays as it was. An INTEGER column of
-- SQLite is an i64, so that `rusqlite` refuses a u64 above its range.
store_receipt : TxEnv → SealedEvent → String → ℕ → String → Database → Result Database String
store_receipt tx event sig_hex ledger_ts status db =
    let row : ReceiptRow = record {
      nonce = event.nonce;
      action_status = status;
      receipt_signature = sig_hex;
      ledger_timestamp = ledger_ts;
    } in
    if tx.begins
    then elim (if tx.inserts && ltb ledger_ts (2 ^ 63) then insert_receipt row db else none) [
      | none ↦ err ("Failed to insert receipt: " ◇ tx.sql_error)
      | some db' ↦
          if tx.updates
          then if tx.commits
            then ok (update_receipt sig_hex ledger_ts event.nonce status db')
            else err ("Failed to commit transaction: " ◇ tx.sql_error)
          else err ("Failed to update local audit log: " ◇ tx.sql_error)
    ]
    else err ("Failed to start transaction: " ◇ tx.sql_error)

module _ ⦃K : Crypto⦄ where
  open K use {hex_decode, verify}

  unfoldable pub verify_and_store_receipt :
      TxEnv
      → SealedEvent
      → String
      → ℕ
      → String
      → String
      → LedgerClient
      → Result Unit String × LedgerClient
  unfolding store_receipt
  verify_and_store_receipt tx event sig_hex ledger_ts chain_hash status self =
      elim (hex_decode sig_hex) [
        | none ↦ (err "Invalid hex in receipt", self)
        | some sig ↦
            if nat_eq (length sig) 64
            then if verify self.ledger_pub_key (receipt_message event ledger_ts chain_hash status)
                sig
              then elim (store_receipt tx event sig_hex ledger_ts status self.db_conn) [
                | err e ↦ (err e, self)
                | ok db ↦ (ok tt, record self { db_conn = db })
              ]
              else (err "CRITICAL: Ledger returned an INVALID receipt signature!", self)
            else (err "Invalid signature length", self)
      ]
