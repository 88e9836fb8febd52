-- ===== src/Ledger/Sync/Signed.antt =====
-- The rows of the log and of the receipts, whatever happened to them: each event signed by the
-- device, each receipt by the ledger for an event of the log.
use autonomous_agent_account.Base.{
  ℕ, String, ◌≡◌, inl, inr, refl, ap, subst, some, [], ◌∷◌, ◌++◌, map, arith, Any, All, All-mono,
  Any-append, Any-mono, All-append, Any-map, All-map, Bool-cases, if◌then◌else◌,
}
use autonomous_agent_account.External.Crypto.{Crypto}
use autonomous_agent_account.Ledger.Database.{
  AuditRow, ReceiptRow, Database, row_key, with_receipt, oldest_unsealed, insert_event,
  insert_receipt, update_receipt,
}
use autonomous_agent_account.Ledger.Database.Oldest.{IsOldest, oldest_unsealed-IsOldest}
use autonomous_agent_account.Ledger.Client.{LedgerClient}
use autonomous_agent_account.Ledger.Event.{SealedEvent}
use autonomous_agent_account.Ledger.Event.Stored.{IsSigned}
use autonomous_agent_account.Ledger.Receipt.Verified.{WithReceipt, receipt_row}
use autonomous_agent_account.Ledger.Sync.{event_of}
use autonomous_agent_account.Ledger.Sync.Outcome.{IsProven}

-- The log holds an event, with a receipt or without.
abbrev pub HasEvent : SealedEvent → Database → Type 0
HasEvent event db = Any (λ (x : AuditRow). event_of x ≡ event) db.local_audit_log

pub insert_event-tables :
    (row : AuditRow) (db db' : Database)
    → insert_event row db ≡ some db'
    → (db'.local_audit_log ≡ db.local_audit_log ++ row ∷ []) × (db'.receipts ≡ db.receipts)
unfolding insert_event
insert_event-tables row db db' h = (ground arith, ground arith)

abbrev pub sealing : String → ℕ → String → String → AuditRow → AuditRow
sealing sig ts nonce status r = if row_key nonce status r then with_receipt sig ts r else r

pub WithReceipt-tables :
    (event : SealedEvent) (sig : String) (ts : ℕ) (status : String) (db db' : Database)
    → WithReceipt event sig ts status db db'
    → (db'.local_audit_log ≡ map (sealing sig ts event.nonce status) db.local_audit_log)
      × (db'.receipts ≡ db.receipts ++ receipt_row event sig ts status ∷ [])
unfolding insert_receipt update_receipt
WithReceipt-tables event sig ts status db db' (mid, inserted, updated) =
    (ground arith, ground arith)

-- A receipt leaves the event of a row as it was.
event_of-sealing :
    (sig : String) (ts : ℕ) (nonce status : String) (x : AuditRow)
    → event_of (sealing sig ts nonce status x) ≡ event_of x
event_of-sealing sig ts nonce status x = elim (Bool-cases (row_key nonce status x)) [
  | inl e ↦ rw e refl
  | inr e ↦ rw e refl
]

pub insert_event-HasEvent :
    (event : SealedEvent) (row : AuditRow) (db db' : Database)
    → insert_event row db ≡ some db'
    → HasEvent event db
    → HasEvent event db'
insert_event-HasEvent event row db db' added h =
    rw (insert_event-tables row db db' added).0
      (Any-append (λ (x : AuditRow). event_of x ≡ event) db.local_audit_log (row ∷ []) h)

pub WithReceipt-HasEvent :
    (e event : SealedEvent) (sig : String) (ts : ℕ) (status : String) (db db' : Database)
    → WithReceipt event sig ts status db db'
    → HasEvent e db
    → HasEvent e db'
WithReceipt-HasEvent e event sig ts status db db' stored h =
    rw (WithReceipt-tables event sig ts status db db' stored).0 (
      Any-map (λ (x : AuditRow). event_of x ≡ e) (sealing sig ts event.nonce status)
        (λ x p. rw event_of-sealing p) db.local_audit_log h)

module _ ⦃K : Crypto⦄ where
  open K use {VerifyingKey}

  -- Every row of the log has the hash of some payload, and the device's signature over its columns.
  abbrev pub AllSigned : LedgerClient → Database → Type 0
  AllSigned client db =
      All (λ (x : AuditRow). (raw : String) × IsSigned client raw x) db.local_audit_log

  -- Every receipt is the ledger's signature over an event that the log holds under its key.
  abbrev pub AllProven : VerifyingKey → Database → Type 0
  AllProven key db =
      All
        (λ (r : ReceiptRow).
          (event : SealedEvent) × HasEvent event db
          × (event.nonce ≡ r.nonce)
          × (event.action_status ≡ r.action_status)
          × IsProven key event r.receipt_signature r.ledger_timestamp)
        db.receipts

  pub insert_event-AllSigned :
      (client : LedgerClient) (raw : String) (row : AuditRow) (db db' : Database)
      → IsSigned client raw row
      → insert_event row db ≡ some db'
      → AllSigned client db
      → AllSigned client db'
  insert_event-AllSigned client raw row db db' signed added h =
      rw (insert_event-tables row db db' added).0 (
        All-append (λ (x : AuditRow). (raw : String) × IsSigned client raw x) db.local_audit_log
          (row ∷ []) h ((raw, signed), tt))

  pub insert_event-AllProven :
      (key : VerifyingKey) (row : AuditRow) (db db' : Database)
      → insert_event row db ≡ some db'
      → AllProven key db
      → AllProven key db'
  insert_event-AllProven key row db db' added h = rw (insert_event-tables row db db' added).1 (
      All-mono _ _
        (λ r (event, there, hn, hs, proven).
          (event, insert_event-HasEvent event row db db' added there, hn, hs, proven))
        db.receipts h)

  sealing-IsSigned :
      (client : LedgerClient) (sig : String) (ts : ℕ) (nonce status : String) (x : AuditRow)
      → (raw : String) × IsSigned client raw x
      → (raw : String) × IsSigned client raw (sealing sig ts nonce status x)
  sealing-IsSigned client sig ts nonce status x (raw, h) =
      (raw, elim (Bool-cases (row_key nonce status x)) [ inl e ↦ rw e h | inr e ↦ rw e h ])

  pub WithReceipt-AllSigned :
      (client : LedgerClient) (event : SealedEvent) (sig : String) (ts : ℕ) (status : String)
      (db db' : Database)
      → WithReceipt event sig ts status db db'
      → AllSigned client db
      → AllSigned client db'
  WithReceipt-AllSigned client event sig ts status db db' stored h =
      rw (WithReceipt-tables event sig ts status db db' stored).0 (
        All-map (λ (x : AuditRow). (raw : String) × IsSigned client raw x)
          (sealing sig ts event.nonce status) (sealing-IsSigned client sig ts event.nonce status)
          db.local_audit_log h)

  pub WithReceipt-AllProven :
      (key : VerifyingKey) (event : SealedEvent) (sig : String) (ts : ℕ) (db db' : Database)
      → WithReceipt event sig ts event.action_status db db'
      → HasEvent event db
      → IsProven key event sig ts
      → AllProven key db
      → AllProven key db'
  WithReceipt-AllProven key event sig ts db db' stored there proven h =
      let status = event.action_status in
      let keep = λ (e : SealedEvent). WithReceipt-HasEvent e event sig ts status db db' stored in
      rw (WithReceipt-tables event sig ts status db db' stored).1 (
        All-append _ db.receipts (receipt_row event sig ts status ∷ [])
          (All-mono _ _ (λ r (e, at, hn, hs, valid). (e, keep e at, hn, hs, valid)) db.receipts h)
          ((event, keep event there, refl, refl, proven), tt))

-- The selected row stands in the log.
pub oldest-HasEvent :
    (row : AuditRow) (db : Database)
    → oldest_unsealed db.local_audit_log ≡ some row
    → HasEvent (event_of row) db
oldest-HasEvent row db e =
    Any-mono (λ (x : AuditRow). x ≡ row) (λ (x : AuditRow). event_of x ≡ event_of row)
      (λ x p. ap event_of p) db.local_audit_log
      (subst (IsOldest db.local_audit_log) e (oldest_unsealed-IsOldest db.local_audit_log)).0
