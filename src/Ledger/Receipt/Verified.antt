-- ===== src/Ledger/Receipt/Verified.antt =====
-- Receipts are stored only when they verify, atomically, and the two tables agree on them.
use autonomous_agent_account.Base.{
  [], ◌∷◌, ◌++◌, map, count, count-zero, ◌==◌, ◌&&◌, if◌then◌else◌, ℕ, ◌<◌, ◌^◌, String, ◌≡◌, inl,
  inr, refl, true, some, arith, Result, ok, err, Bool-cases, Option-cases, length, nat_eq,
}
use autonomous_agent_account.External.Crypto.{Crypto, Bytes}
use autonomous_agent_account.Ledger.Database.{
  ReceiptRow, Database, receipt_key, insert_receipt, update_receipt,
}
use autonomous_agent_account.Ledger.Client.{LedgerClient}
use autonomous_agent_account.Ledger.Event.{SealedEvent}
use autonomous_agent_account.Ledger.Receipt.{
  TxEnv, receipt_message, store_receipt, verify_and_store_receipt,
}

abbrev pub receipt_row : SealedEvent → String → ℕ → String → ReceiptRow
receipt_row event sig_hex ts status = record {
  nonce = event.nonce;
  action_status = status;
  receipt_signature = sig_hex;
  ledger_timestamp = ts;
}

-- The database after the transaction that stores a receipt: both statements together.
abbrev pub WithReceipt : SealedEvent → String → ℕ → String → Database → Database → Type 0
WithReceipt event sig_hex ts status db db' =
    (mid : Database) × (insert_receipt (receipt_row event sig_hex ts status) db ≡ some mid)
    × (db' ≡ update_receipt sig_hex ts event.nonce status mid)

-- The rows that a receipt leaves: one more in `receipts`, under a key that no receipt had, and the
-- two columns set in the rows of the log with the event's nonce and the status, and in no other.
abbrev pub Receipted : SealedEvent → String → ℕ → String → Database → Database → Type 0
Receipted event sig_hex ts status db db' =
    (count (receipt_key event.nonce status) db.receipts ≡ 0)
    × (db'.receipts
        ≡ db.receipts
          ++ record {
            nonce = event.nonce;
            action_status = status;
            receipt_signature = sig_hex;
            ledger_timestamp = ts;
          }
            ∷ [])
    × (db'.local_audit_log
        ≡ map
            (λ r.
              if r.nonce == event.nonce && r.action_status == status
              then record r { receipt_signature = some sig_hex; ledger_timestamp = some ts }
              else r)
            db.local_audit_log)

pub WithReceipt-Receipted :
    (event : SealedEvent) (sig_hex : String) (ts : ℕ) (status : String) (db db' : Database)
    → WithReceipt event sig_hex ts status db db'
    → Receipted event sig_hex ts status db db'
unfolding insert_receipt update_receipt
WithReceipt-Receipted event sig ts status db db' (mid, inserted, updated) = (
  ground (arith, count-zero (receipt_key event.nonce status) db.receipts),
  ground arith,
  ground arith,
)

store_receipt-ok :
    (tx : TxEnv) (event : SealedEvent) (sig_hex : String) (ts : ℕ) (status : String)
    (db db' : Database)
    → store_receipt tx event sig_hex ts status db ≡ ok db'
    → (ts < 2 ^ 63) × WithReceipt event sig_hex ts status db db'
unfolding store_receipt
store_receipt-ok tx event sig ts status db db' h =
    elim (Option-cases (insert_receipt (receipt_row event sig ts status) db)) [
      | inl e ↦ ground arith
      | inr (mid, e) ↦ (ground arith, (mid, e, ground arith))
    ]

module _ ⦃K : Crypto⦄ where
  open K use {hex_decode, verify}

  -- What storing a receipt may do, by its result.
  abbrev pub ReceiptResult :
      SealedEvent
      → String
      → ℕ
      → String
      → String
      → LedgerClient
      → Result Unit String × LedgerClient
      → Type 0
  ReceiptResult event sig_hex ts chain status self (ok u, self') =
      (sig : Bytes) × (hex_decode sig_hex ≡ some sig)
      × (length sig ≡ 64)
      × (verify self.ledger_pub_key (receipt_message event ts chain status) sig ≡ true)
      × (ts < 2 ^ 63)
      × Receipted event sig_hex ts status self.db_conn self'.db_conn
      × WithReceipt event sig_hex ts status self.db_conn self'.db_conn
      × (self' ≡ record self { db_conn = self'.db_conn })
  ReceiptResult event sig_hex ts chain status self (err e, self') = self' ≡ self

  -- A receipt is stored only if its signature is 64 bytes that verify under the ledger's key for this
  -- event and its timestamp fits an i64. Then one row stands behind `receipts`, under a key that no
  -- receipt had, and in the log the two columns of a receipt are set in exactly the rows with the
  -- event's nonce and the status. On any failure nothing is stored.
  pub verify_and_store_receipt-ReceiptResult :
      (tx : TxEnv) (event : SealedEvent) (sig_hex : String) (ts : ℕ) (chain status : String)
      (self : LedgerClient)
      → ReceiptResult event sig_hex ts chain status self
          (verify_and_store_receipt tx event sig_hex ts chain status self)
  unfolding verify_and_store_receipt
  verify_and_store_receipt-ReceiptResult tx event sig_hex ts chain status self =
      elim (Option-cases (hex_decode sig_hex)) [
        | inl e ↦ rw (e, verify_and_store_receipt) refl
        | inr (sig, e) ↦ elim (Bool-cases (nat_eq (length sig) 64)) [
          | inr l ↦ rw (e, l, verify_and_store_receipt) refl
          | inl l ↦
              elim (Bool-cases
                (verify self.ledger_pub_key (receipt_message event ts chain status) sig)) [
                  | inr v ↦ rw (e, l, v, verify_and_store_receipt) refl
                  | inl v ↦
                      rw (e, l, v, verify_and_store_receipt)
                        (go sig e (ground arith) v
                          (store_receipt tx event sig_hex ts status self.db_conn) refl)
                ]
        ]
      ]
    where
      go :
          (sig : Bytes)
          → hex_decode sig_hex ≡ some sig
          → length sig ≡ 64
          → verify self.ledger_pub_key (receipt_message event ts chain status) sig ≡ true
          → (r : Result Database String) → store_receipt tx event sig_hex ts status self.db_conn ≡ r
          → ReceiptResult event sig_hex ts chain status self
              (elim r [ err e ↦ (err e, self) | ok db ↦ (ok tt, record self { db_conn = db }) ])
      go sig e l v (ok db) h =
          let (small, stored) = store_receipt-ok tx event sig_hex ts status self.db_conn db h in
          (
            sig,
            e,
            l,
            v,
            small,
            WithReceipt-Receipted event sig_hex ts status self.db_conn db stored,
            stored,
            refl,
          )
      go sig e l v (err m) h = refl
