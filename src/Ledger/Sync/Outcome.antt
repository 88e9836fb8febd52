-- ===== src/Ledger/Sync/Outcome.antt =====
-- What one call of `sync_queue` may do to the database.
use autonomous_agent_account.Base.{
  ℕ, ◌<◌, ◌^◌, length, String, ◌≡◌, ◌⊎◌, inl, inr, refl, sym, ap, subst, Bool, true, false, ◌◇◌,
  Option, none, some, arith, Result, ok, err, Bool-cases, Option-cases, and_then,
}
use autonomous_agent_account.Base.Int.{ℤ, to_u64}
use autonomous_agent_account.External.Json.{Json}
use autonomous_agent_account.External.Crypto.{Crypto, Bytes}
use autonomous_agent_account.External.Http.{Reply, network_error, response}
use autonomous_agent_account.Ledger.Database.{AuditRow, Database, oldest_unsealed, insert_receipt}
use autonomous_agent_account.Ledger.Database.Oldest.{rows-oldest}
use autonomous_agent_account.Ledger.Database.Keys.{rows, rows-update_receipt, HasUniqueKeys}
use autonomous_agent_account.Ledger.Client.{LedgerClient}
use autonomous_agent_account.Ledger.Event.{SealedEvent}
use autonomous_agent_account.Ledger.Receipt.{TxEnv, receipt_message, verify_and_store_receipt}
use autonomous_agent_account.Ledger.Receipt.Verified.{
  WithReceipt, ReceiptResult, verify_and_store_receipt-ReceiptResult,
}
use autonomous_agent_account.Ledger.Receipt.Tables.{ReceiptsMatch, WithReceipt-ReceiptsMatch}
use autonomous_agent_account.Ledger.Sync.{
  event_of, seal_body, take_receipt, seal_body_reply, seal_reply, sync_queue,
}

-- A receipt keeps every key of the log.
pub rows-WithReceipt :
    (nonce status : String) (event : SealedEvent) (sig_hex : String) (ts : ℕ) (s : String)
    (db db' : Database)
    → WithReceipt event sig_hex ts s db db'
    → rows nonce status db' ≡ rows nonce status db
unfolding insert_receipt
rows-WithReceipt nonce status event sig ts s db db' (mid, inserted, updated) =
    ground (arith, rows-update_receipt nonce status sig event.nonce s ts mid)

module _ ⦃K : Crypto⦄ where
  open K use {VerifyingKey, hex_decode, verify}

  -- The ledger's signature over an event, the time and a link of its chain; the time fits an i64.
  abbrev pub IsProven : VerifyingKey → SealedEvent → String → ℕ → Type 0
  IsProven key event sig_hex ts =
      (chain : String) × (sig : Bytes) × (hex_decode sig_hex ≡ some sig)
      × (length sig ≡ 64)
      × (verify key (receipt_message event ts chain event.action_status) sig ≡ true)
      × (ts < 2 ^ 63)

  -- Nothing, or a verified receipt for an event.
  abbrev pub Received : AuditRow → LedgerClient → LedgerClient → Type 0
  Received row self self' =
      (self' ≡ self)
      ⊎ ((sig_hex : String) × (ts : ℕ) × IsProven self.ledger_pub_key (event_of row) sig_hex ts
          × WithReceipt (event_of row) sig_hex ts row.action_status self.db_conn self'.db_conn
          × (self' ≡ record self { db_conn = self'.db_conn }))

  -- Nothing, or a verified receipt for the oldest event without one.
  abbrev pub Synced : LedgerClient → LedgerClient → Type 0
  Synced self self' =
      (self' ≡ self)
      ⊎ ((row : AuditRow) × (oldest_unsealed self.db_conn.local_audit_log ≡ some row)
          × Received row self self')

  pub rows-Received :
      (nonce status : String) (row : AuditRow) (self self' : LedgerClient)
      → Received row self self'
      → rows nonce status self'.db_conn ≡ rows nonce status self.db_conn
  rows-Received nonce status row self self' (inl same) =
      ap (λ (c : LedgerClient). rows nonce status c.db_conn) same
  rows-Received nonce status row self self' (inr (sig, ts, proven, stored, same)) =
      rows-WithReceipt nonce status (event_of row) sig ts row.action_status self.db_conn
        self'.db_conn stored

  -- A receipt for an event that has one row in the log keeps the two tables in agreement.
  pub Received-ReceiptsMatch :
      (row : AuditRow) (self self' : LedgerClient)
      → Received row self self'
      → rows row.nonce row.action_status self.db_conn ≡ 1
      → ReceiptsMatch self.db_conn
      → ReceiptsMatch self'.db_conn
  Received-ReceiptsMatch row self self' (inl same) one agree =
      subst (λ (c : LedgerClient). ReceiptsMatch c.db_conn) (sym same) agree
  Received-ReceiptsMatch row self self' (inr (sig, ts, proven, stored, same)) one agree =
      WithReceipt-ReceiptsMatch (event_of row) sig ts row.action_status self.db_conn self'.db_conn
        one agree stored

module _ ⦃J : Json⦄ ⦃K : Crypto⦄ where
  open J use {Value, get, as_str, as_i64}

  module _ (row : AuditRow) (self : LedgerClient) where
    result-Received :
        (sig : String) (ts : ℕ) (ch : String) (r : Result Unit String) (self' : LedgerClient)
        → ReceiptResult (event_of row) sig ts ch row.action_status self (r, self')
        → Received row self self'
    result-Received sig ts ch (ok u) self' (bytes, d, l, v, small, tables, stored, same) =
        inr (sig, ts, (ch, bytes, d, l, v, small), stored, same)
    result-Received sig ts ch (err e) self' same = inl same

    take_receipt-Received :
        (tx : TxEnv) (sig : Option String) (ts : Option ℤ) (ch : Option String)
        → Received row self (take_receipt tx (event_of row) sig ts ch self)
    unfolding take_receipt
    take_receipt-Received tx (some sig) (some ts) (some ch) =
        result-Received sig (to_u64 ts) ch
          (verify_and_store_receipt tx (event_of row) sig (to_u64 ts) ch row.action_status self).0
          (verify_and_store_receipt tx (event_of row) sig (to_u64 ts) ch row.action_status self).1
          (verify_and_store_receipt-ReceiptResult tx (event_of row) sig (to_u64 ts) ch
            row.action_status self)
    take_receipt-Received tx _ _ _ = inl refl

    seal_body_reply-Received :
        (tx : TxEnv) (body : Option Value)
        → Received row self (seal_body_reply tx (event_of row) body self)
    unfolding seal_body_reply
    seal_body_reply-Received tx none = inl refl
    seal_body_reply-Received tx (some json) =
        take_receipt-Received tx (and_then (get json "receipt_signature") as_str)
          (and_then (get json "ledger_timestamp") as_i64) (and_then (get json "chain_hash") as_str)

    -- The reply for an event, whichever it was.
    pub seal_reply-Received :
        (tx : TxEnv) (reply : Reply) → Received row self (seal_reply tx (event_of row) reply self)
    unfolding seal_reply
    seal_reply-Received tx network_error = inl refl
    seal_reply-Received tx (response r) = elim (Bool-cases r.is_success) [
      | inl e ↦ rw e (seal_body_reply-Received tx r.body)
      | inr e ↦ rw e (inl refl)
    ]

  pub sync_queue-none :
      (post : String → Value → Reply) (tx : TxEnv) (self : LedgerClient)
      → oldest_unsealed self.db_conn.local_audit_log ≡ none
      → sync_queue true post tx self ≡ self
  unfolding sync_queue
  sync_queue-none post tx self e = rw (e, sync_queue)

  pub sync_queue-some :
      (post : String → Value → Reply) (tx : TxEnv) (row : AuditRow) (self : LedgerClient)
      → oldest_unsealed self.db_conn.local_audit_log ≡ some row
      → sync_queue true post tx self
        ≡ seal_reply tx
            (event_of row)
            (post (self.ledger_url ◇ "/seal") (seal_body (event_of row)))
            self
  unfolding sync_queue
  sync_queue-some post tx row self e = rw (e, sync_queue)

  -- A call of `sync_queue` changes nothing, or stores a verified receipt for the oldest event
  -- that has none.
  pub sync_queue-Synced :
      (readable : Bool) (post : String → Value → Reply) (tx : TxEnv) (self : LedgerClient)
      → Synced self (sync_queue readable post tx self)
  unfolding sync_queue
  sync_queue-Synced false post tx self = inl refl
  sync_queue-Synced true post tx self =
      elim (Option-cases (oldest_unsealed self.db_conn.local_audit_log)) [
        | inl e ↦ inl (sync_queue-none post tx self e)
        | inr (row, e) ↦
            subst (λ c. Synced self c) (sym (sync_queue-some post tx row self e))
              (inr (
                row,
                e,
                seal_reply-Received row self tx
                    (post (self.ledger_url ◇ "/seal") (seal_body (event_of row))),
              ))
      ]

  pub rows-sync_queue :
      (nonce status : String) (readable : Bool) (post : String → Value → Reply) (tx : TxEnv)
      (self : LedgerClient)
      → rows nonce status (sync_queue readable post tx self).db_conn
        ≡ rows nonce status self.db_conn
  rows-sync_queue nonce status readable post tx self =
      go _ (sync_queue-Synced readable post tx self)
    where
      go :
          (self' : LedgerClient)
          → Synced self self'
          → rows nonce status self'.db_conn ≡ rows nonce status self.db_conn
      go self' (inl same) = ap (λ (c : LedgerClient). rows nonce status c.db_conn) same
      go self' (inr (row, found, received)) = rows-Received nonce status row self self' received

  -- Over a log with unique keys, a call of `sync_queue` keeps the two tables in agreement.
  pub sync_queue-ReceiptsMatch :
      (readable : Bool) (post : String → Value → Reply) (tx : TxEnv) (self : LedgerClient)
      → HasUniqueKeys self.db_conn
      → ReceiptsMatch self.db_conn
      → ReceiptsMatch (sync_queue readable post tx self).db_conn
  sync_queue-ReceiptsMatch readable post tx self unique agree =
      go _ (sync_queue-Synced readable post tx self)
    where
      go : (self' : LedgerClient) → Synced self self' → ReceiptsMatch self'.db_conn
      go self' (inl same) = subst (λ (c : LedgerClient). ReceiptsMatch c.db_conn) (sym same) agree
      go self' (inr (row, found, received)) =
          Received-ReceiptsMatch row self self' received (rows-oldest row self.db_conn unique found)
            agree
