-- ===== src/Ledger/Sync/Progress.antt =====
-- How the queue empties: a ledger that accepts takes one event a call, and an event that it rejects
-- keeps the later ones back.
use autonomous_agent_account.Base.{
  ◌^◌, ltb, ℕ, ◌+◌, String, ◌≡◌, ◌∙◌, refl, sym, subst, Bool, true, false, ◌◇◌, some, List, [], ◌∷◌,
  ◌++◌, map, arith, count, any-eq-count, and_then, inl, inr, Bool-cases, length, nat_eq,
  if◌then◌else◌,
}
use autonomous_agent_account.Base.Int.{ℤ, to_u64}
use autonomous_agent_account.External.Json.{Json}
use autonomous_agent_account.External.Crypto.{Crypto, Bytes}
use autonomous_agent_account.External.Http.{Reply, Response, response}
use autonomous_agent_account.Ledger.Database.{
  AuditRow, ReceiptRow, Database, row_key, receipt_key, is_unsealed, with_receipt, oldest_unsealed,
  insert_receipt, update_receipt,
}
use autonomous_agent_account.Ledger.Database.Keys.{HasUniqueKeys}
use autonomous_agent_account.Ledger.Database.Oldest.{unsealed_key, rows-oldest, unsealed-oldest}
use autonomous_agent_account.Ledger.Client.{LedgerClient}
use autonomous_agent_account.Ledger.Receipt.{TxEnv, receipt_message, verify_and_store_receipt}
use autonomous_agent_account.Ledger.Receipt.Verified.{WithReceipt, receipt_row}
use autonomous_agent_account.Ledger.Receipt.Tables.{ReceiptsMatch, sealed_key}
use autonomous_agent_account.Ledger.Sync.{event_of, seal_body, take_receipt, seal_reply, sync_queue}
use autonomous_agent_account.Ledger.Sync.Outcome.{sync_queue-some}

-- The events that still wait for a receipt.
abbrev pub unsealed : Database → ℕ
unsealed db = count is_unsealed db.local_audit_log

-- An UPDATE takes from the queue the rows of its key that wait.
unsealed-update :
    (sig n s : String) (ts : ℕ) (xs : List AuditRow)
    → count is_unsealed (map (λ r. if row_key n s r then with_receipt sig ts r else r) xs)
        + count (unsealed_key n s) xs
      ≡ count is_unsealed xs
unsealed-update sig n s ts [] = omega arith
unsealed-update sig n s ts (x ∷ xs) = elim (Bool-cases (row_key n s x)) [
  | inl e ↦ rw e (ground (arith, unsealed-update sig n s ts xs))
  | inr e ↦ rw e (ground (arith, unsealed-update sig n s ts xs))
]

-- A receipt for the selected event shortens the queue by one.
unsealed-WithReceipt :
    (row : AuditRow) (sig : String) (ts : ℕ) (db db' : Database)
    → HasUniqueKeys db
    → oldest_unsealed db.local_audit_log ≡ some row
    → WithReceipt (event_of row) sig ts row.action_status db db'
    → unsealed db' + 1 ≡ unsealed db
unfolding insert_receipt update_receipt
unsealed-WithReceipt row sig ts db db' unique found (mid, inserted, updated) = ground (
  arith,
  unsealed-oldest row db unique found,
  unsealed-update sig row.nonce row.action_status ts db.local_audit_log,
)

-- Of a row with a key that is there once, a receipt is stored or it waits.
sealed-or-unsealed :
    (n s : String) (xs : List AuditRow)
    → count (sealed_key n s) xs + count (unsealed_key n s) xs ≡ count (row_key n s) xs
sealed-or-unsealed n s [] = omega arith
sealed-or-unsealed n s (x ∷ xs) = ground (arith, sealed-or-unsealed n s xs)

-- Its key is free in `receipts`.
insert_receipt-oldest :
    (row : AuditRow) (r : ReceiptRow) (db : Database)
    → HasUniqueKeys db
    → ReceiptsMatch db
    → oldest_unsealed db.local_audit_log ≡ some row
    → r.nonce ≡ row.nonce
    → r.action_status ≡ row.action_status
    → (mid : Database) × (insert_receipt r db ≡ some mid)
unfolding insert_receipt
insert_receipt-oldest row r db unique agree found hn hs = (
  record db { receipts = db.receipts ++ r ∷ [] },
  ground (
    arith,
    any-eq-count (receipt_key r.nonce r.action_status) db.receipts,
    agree row.nonce row.action_status,
    sealed-or-unsealed row.nonce row.action_status db.local_audit_log,
    unsealed-oldest row db unique found,
    rows-oldest row db unique found,
  ),
)

module _ ⦃J : Json⦄ ⦃K : Crypto⦄ where
  open J use {Value, get, as_str, as_i64}
  open K use {VerifyingKey, hex_decode, verify}

  -- The ledger answers an event with a success whose body holds a receipt that verifies and whose
  -- timestamp SQLite can store.
  pub record Accepts (post : String → Value → Reply) (url : String) (key : VerifyingKey)
      (row : AuditRow) : Type 0 where
    pub reply : Response
    pub json : Value
    pub sig_hex : String
    pub ts : ℤ
    pub chain : String
    pub sig : Bytes
    pub sent : post (url ◇ "/seal") (seal_body (event_of row)) ≡ response reply
    pub success : reply.is_success ≡ true
    pub body : reply.body ≡ some json
    pub has_signature : and_then (get json "receipt_signature") as_str ≡ some sig_hex
    pub has_timestamp : and_then (get json "ledger_timestamp") as_i64 ≡ some ts
    pub in_range : ltb (to_u64 ts) (2 ^ 63) ≡ true
    pub has_chain : and_then (get json "chain_hash") as_str ≡ some chain
    pub decodes : hex_decode sig_hex ≡ some sig
    pub long : nat_eq (length sig) 64 ≡ true
    pub verifies :
        verify key (receipt_message (event_of row) (to_u64 ts) chain row.action_status) sig ≡ true

  -- SQLite runs every statement of the transaction.
  abbrev pub Runs : TxEnv → Type 0
  Runs tx = (tx.begins ≡ true) × (tx.inserts ≡ true) × (tx.updates ≡ true) × (tx.commits ≡ true)

  accepted :
      (post : String → Value → Reply) (tx : TxEnv) (row : AuditRow) (self : LedgerClient)
      (mid : Database) (a : Accepts post self.ledger_url self.ledger_pub_key row)
      → Runs tx
      → insert_receipt
          (receipt_row (event_of row) a.sig_hex (to_u64 a.ts) row.action_status)
          self.db_conn
        ≡ some mid
      → seal_reply tx
          (event_of row)
          (post (self.ledger_url ◇ "/seal") (seal_body (event_of row)))
          self
        ≡ record self {
          db_conn = update_receipt a.sig_hex (to_u64 a.ts) row.nonce row.action_status mid;
        }
  unfolding seal_reply verify_and_store_receipt
  accepted post tx row self mid a (b, i, u, c) h = rw (
    a.sent, a.success, a.body, a.has_signature, a.has_timestamp, a.has_chain, take_receipt,
    verify_and_store_receipt, a.decodes, a.long, a.verifies, b, i, a.in_range, h, u, c,
  )

  -- Over a log with unique keys that agrees with the receipts, if the ledger accepts the oldest event
  -- without a receipt and SQLite runs every statement, one call of `sync_queue` takes exactly one
  -- event from the queue.
  pub sync_queue-accepted :
      (post : String → Value → Reply) (tx : TxEnv) (row : AuditRow) (self : LedgerClient)
      → Runs tx
      → HasUniqueKeys self.db_conn
      → ReceiptsMatch self.db_conn
      → oldest_unsealed self.db_conn.local_audit_log ≡ some row
      → Accepts post self.ledger_url self.ledger_pub_key row
      → unsealed (sync_queue true post tx self).db_conn + 1 ≡ unsealed self.db_conn
  sync_queue-accepted post tx row self runs unique agree found a =
      let r = receipt_row (event_of row) a.sig_hex (to_u64 a.ts) row.action_status in
      let (mid, h) = insert_receipt-oldest row r self.db_conn unique agree found refl refl in
      subst (λ (c : LedgerClient). unsealed c.db_conn + 1 ≡ unsealed self.db_conn)
        (sym (sync_queue-some post tx row self found ∙ accepted post tx row self mid a runs h))
        (unsealed-WithReceipt row a.sig_hex (to_u64 a.ts) self.db_conn _ unique found
          (mid, h, refl))

  -- An event that the ledger does not accept stays at the head: the client is as it was, so that
  -- the next call selects the same event again.
  pub sync_queue-rejected :
      (readable : Bool) (post : String → Value → Reply) (tx : TxEnv) (row : AuditRow) (r : Response)
      (self : LedgerClient)
      → oldest_unsealed self.db_conn.local_audit_log ≡ some row
      → post (self.ledger_url ◇ "/seal") (seal_body (event_of row)) ≡ response r
      → r.is_success ≡ false
      → sync_queue readable post tx self ≡ self
  unfolding sync_queue seal_reply
  sync_queue-rejected true post tx row r self found sent refused =
      rw (found, sent, refused, sync_queue)
  sync_queue-rejected false post tx row r self found sent refused = refl
