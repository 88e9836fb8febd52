-- ===== src/Ledger/Receipt/Tables.antt =====
-- The two tables agree on which events have a receipt.
use autonomous_agent_account.Base.{
  ℕ, suc, String, ◌≡◌, inl, inr, Bool, true, false, ◌&&◌, none, some, List, [], ◌∷◌, map, arith,
  count, count-append, count-zero, is_some, Bool-cases, ◌==◌, eq_iff, if◌then◌else◌,
}
use autonomous_agent_account.Ledger.Database.{
  AuditRow, Database, row_key, receipt_key, with_receipt, insert_event, insert_receipt,
  update_receipt,
}
use autonomous_agent_account.Ledger.Database.Keys.{rows}
use autonomous_agent_account.Ledger.Event.{SealedEvent}
use autonomous_agent_account.Ledger.Receipt.Verified.{WithReceipt, receipt_row}

abbrev pub sealed_key : String → String → AuditRow → Bool
sealed_key nonce status r = row_key nonce status r && is_some r.receipt_signature

-- For every key, `receipts` has as many rows as `local_audit_log` has rows with a receipt.
abbrev pub ReceiptsMatch : Database → Type 0
ReceiptsMatch db =
    (nonce status : String)
    → count (receipt_key nonce status) db.receipts
      ≡ count (sealed_key nonce status) db.local_audit_log

abbrev with_receipts : String → ℕ → String → String → List AuditRow → List AuditRow
with_receipts sig ts n s xs = map (λ r. if row_key n s r then with_receipt sig ts r else r) xs

-- One row of the list, by whether the UPDATE touches it; `r` says whether the row has the other key.
touched :
    (r same sealed : Bool) (l c s : ℕ)
    → r ≡ same
    → l ≡ (if same then c else s)
    → (if r && true then suc l else l)
      ≡ (if same then suc c else (if r && sealed then suc s else s))
touched r same sealed l c s h e = ground arith

untouched :
    (r same sealed : Bool) (l c s : ℕ)
    → (same ≡ true → r ≡ false)
    → l ≡ (if same then c else s)
    → (if r && sealed then suc l else l) ≡ (if same then c else (if r && sealed then suc s else s))
untouched r same sealed l c s h e = ground arith

abbrev same_key : String → String → String → String → Bool
same_key n s nonce status = n == nonce && s == status

key-same :
    (nonce status n s : String) (x : AuditRow)
    → row_key n s x ≡ true
    → row_key nonce status x ≡ same_key n s nonce status
key-same nonce status n s x h = ground (arith, eq_iff x.nonce n, eq_iff x.action_status s)

key-other :
    (nonce status n s : String) (x : AuditRow)
    → row_key n s x ≡ false
    → same_key n s nonce status ≡ true
    → row_key nonce status x ≡ false
key-other nonce status n s x h e = ground (arith, eq_iff n nonce, eq_iff s status)

-- An UPDATE gives every row of its key a receipt, and no other.
sealed-update :
    (nonce status sig n s : String) (ts : ℕ) (xs : List AuditRow)
    → count (sealed_key nonce status) (with_receipts sig ts n s xs) ≡ (
        if same_key n s nonce status
        then count (row_key n s) xs
        else count (sealed_key nonce status) xs)
sealed-update nonce status sig n s ts [] = ground arith
sealed-update nonce status sig n s ts (x ∷ xs) = elim (Bool-cases (row_key n s x)) [
  | inl e ↦ rw e (
      touched (row_key nonce status x) (same_key n s nonce status) (is_some x.receipt_signature) _ _
        _ (key-same nonce status n s x e) (sealed-update nonce status sig n s ts xs))
  | inr e ↦ rw e (
      untouched (row_key nonce status x) (same_key n s nonce status) (is_some x.receipt_signature) _
        _ _ (key-other nonce status n s x e) (sealed-update nonce status sig n s ts xs))
]

-- Storing a receipt for an event that has one row keeps the tables in agreement.
pub WithReceipt-ReceiptsMatch :
    (event : SealedEvent) (sig_hex : String) (ts : ℕ) (status : String) (db db' : Database)
    → rows event.nonce status db ≡ 1
    → ReceiptsMatch db
    → WithReceipt event sig_hex ts status db db'
    → ReceiptsMatch db'
unfolding insert_receipt update_receipt
WithReceipt-ReceiptsMatch event sig ts status db db' one agree (mid, inserted, updated) n s =
    ground (
      arith,
      agree n s,
      agree event.nonce status,
      sealed-update n s sig event.nonce status ts db.local_audit_log,
      count-append (receipt_key n s) db.receipts (receipt_row event sig ts status ∷ []),
      count-zero (receipt_key event.nonce status) db.receipts,
      eq_iff event.nonce n,
      eq_iff status s,
    )

-- A row without a receipt changes nothing about them.
pub insert_event-ReceiptsMatch :
    (row : AuditRow) (db db' : Database)
    → row.receipt_signature ≡ none
    → insert_event row db ≡ some db'
    → ReceiptsMatch db
    → ReceiptsMatch db'
unfolding insert_event
insert_event-ReceiptsMatch row db db' fresh h agree n s =
    ground (arith, agree n s, count-append (sealed_key n s) db.local_audit_log (row ∷ []))
