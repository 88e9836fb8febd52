-- ===== src/Ledger/Database.antt =====
-- The local SQLite database of ledger_client.rs: its two tables, and its statements as functions of
-- their rows. A table is the list of its rows in the order in which SQLite scans them.
pub mod Keys
pub mod Oldest
use autonomous_agent_account.Base.{
  ℕ, String, Bool, true, false, ◌&&◌, Option, none, some, List, [], ◌∷◌, ◌++◌, map, ◌==◌, leb, any,
  is_some, not, if◌then◌else◌,
}

-- A row of `local_audit_log`. The last three columns but one stay NULL until a receipt comes.
pub record AuditRow : Type 0 where
  pub nonce : String
  pub action_status : String
  pub payload_hash : String
  pub agent_id : String
  pub local_timestamp : ℕ
  pub device_id : String
  pub device_signature : String
  pub payload_json : String
  pub receipt_signature : Option String
  pub ledger_timestamp : Option ℕ
  pub json_rpc_id : Option String

-- A row of `receipts`.
pub record ReceiptRow : Type 0 where
  pub nonce : String
  pub action_status : String
  pub receipt_signature : String
  pub ledger_timestamp : ℕ

pub record Database : Type 0 where
  pub local_audit_log : List AuditRow
  pub receipts : List ReceiptRow

-- The tables as `CREATE TABLE IF NOT EXISTS` makes them in a new file.
abbrev pub empty_database : Database
empty_database = record { local_audit_log = []; receipts = [] }

-- The primary keys, (nonce, action_status).
abbrev pub row_key : String → String → AuditRow → Bool
row_key nonce status r = r.nonce == nonce && r.action_status == status

abbrev pub receipt_key : String → String → ReceiptRow → Bool
receipt_key nonce status r = r.nonce == nonce && r.action_status == status

-- SELECT 1 FROM local_audit_log WHERE nonce = ?1
unfoldable pub select_nonce : String → Database → Bool
select_nonce nonce db = any (λ (r : AuditRow). r.nonce == nonce) db.local_audit_log

-- INSERT INTO local_audit_log; `none` is the violation of the primary key.
unfoldable pub insert_event : AuditRow → Database → Option Database
insert_event row db =
    if any (row_key row.nonce row.action_status) db.local_audit_log
    then none
    else some (record db { local_audit_log = db.local_audit_log ++ row ∷ [] })

-- INSERT INTO receipts
unfoldable pub insert_receipt : ReceiptRow → Database → Option Database
insert_receipt row db =
    if any (receipt_key row.nonce row.action_status) db.receipts
    then none
    else some (record db { receipts = db.receipts ++ row ∷ [] })

abbrev pub with_receipt : String → ℕ → AuditRow → AuditRow
with_receipt sig ts r = record r { receipt_signature = some sig; ledger_timestamp = some ts }

-- UPDATE local_audit_log SET receipt_signature, ledger_timestamp WHERE nonce AND action_status
unfoldable pub update_receipt : String → ℕ → String → String → Database → Database
update_receipt sig ts nonce status db = record db {
  local_audit_log =
      map (λ r. if row_key nonce status r then with_receipt sig ts r else r) db.local_audit_log;
}

abbrev pub is_unsealed : AuditRow → Bool
is_unsealed r = not (is_some r.receipt_signature)

abbrev earlier : AuditRow → Option AuditRow → AuditRow
earlier r none = r
earlier r (some s) = if leb r.local_timestamp s.local_timestamp then r else s

-- SELECT … WHERE receipt_signature IS NULL ORDER BY local_timestamp ASC LIMIT 1
unfoldable pub oldest_unsealed : List AuditRow → Option AuditRow
oldest_unsealed [] = none
oldest_unsealed (r ∷ rows) =
    let best = oldest_unsealed rows in if is_unsealed r then some (earlier r best) else best
