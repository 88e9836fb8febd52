-- ===== src/Ledger/Database/Keys.antt =====
-- How often a primary key occurs in the tables.
use autonomous_agent_account.Base.{
  ℕ, ◌+◌, ◌≤◌, String, ◌≡◌, refl, true, none, some, List, [], ◌∷◌, map, arith, any, count,
  count-append, count-zero, if◌then◌else◌, ◌==◌, eq_iff, Bool-cases, inl, inr,
}
use autonomous_agent_account.Ledger.Database.{
  AuditRow, Database, row_key, select_nonce, insert_event, update_receipt, with_receipt,
}

-- The number of rows of `local_audit_log` with a key.
abbrev pub rows : String → String → Database → ℕ
rows nonce status db = count (row_key nonce status) db.local_audit_log

-- No key occurs twice.
abbrev pub HasUniqueKeys : Database → Type 0
HasUniqueKeys db = (nonce status : String) → rows nonce status db ≤ 1

-- An INSERT that succeeds adds one row, whose key was not there.
pub rows-insert_event :
    (nonce status : String) (row : AuditRow) (db db' : Database)
    → insert_event row db ≡ some db'
    → (rows row.nonce row.action_status db ≡ 0)
      × (rows nonce status db' ≡ rows nonce status db + (if row_key nonce status row then 1 else 0))
unfolding insert_event
rows-insert_event nonce status row db db' h = ground (
  arith,
  count-zero (row_key row.nonce row.action_status) db.local_audit_log,
  count-append (row_key nonce status) db.local_audit_log (row ∷ []),
)

-- An INSERT fails only on a key that is there.
pub insert_event-none :
    (row : AuditRow) (db : Database)
    → 1 ≤ rows row.nonce row.action_status db
    → insert_event row db ≡ none
unfolding insert_event
insert_event-none row db h =
    ground (arith, count-zero (row_key row.nonce row.action_status) db.local_audit_log)

-- An UPDATE keeps every key.
count-update :
    (nonce status sig n s : String) (ts : ℕ) (xs : List AuditRow)
    → count
        (row_key nonce status)
        (map (λ r. if row_key n s r then with_receipt sig ts r else r) xs)
      ≡ count (row_key nonce status) xs
count-update nonce status sig n s ts [] = refl
count-update nonce status sig n s ts (x ∷ xs) =
    ground (arith, count-update nonce status sig n s ts xs)

pub rows-update_receipt :
    (nonce status sig n s : String) (ts : ℕ) (db : Database)
    → rows nonce status (update_receipt sig ts n s db) ≡ rows nonce status db
unfolding update_receipt
rows-update_receipt nonce status sig n s ts db =
    count-update nonce status sig n s ts db.local_audit_log

-- A row with a nonce is found by it.
pub select_nonce-rows :
    (nonce status : String) (db : Database)
    → 1 ≤ rows nonce status db
    → select_nonce nonce db ≡ true
unfolding select_nonce
select_nonce-rows nonce status db h = go db.local_audit_log h
  where
    go :
        (xs : List AuditRow)
        → 1 ≤ count (row_key nonce status) xs
        → any (λ (r : AuditRow). r.nonce == nonce) xs ≡ true
    go [] h = absurd (omega arith)
    go (x ∷ xs) h = ground (arith, go xs)

-- A row's key is its nonce and its status.
row_key-eq :
    (nonce status : String) (row : AuditRow)
    → row_key nonce status row ≡ true
    → (row.nonce ≡ nonce) × (row.action_status ≡ status)
row_key-eq nonce status row h =
    ground (arith, eq_iff row.nonce nonce, eq_iff row.action_status status)

-- An INSERT keeps the keys unique.
pub insert_event-HasUniqueKeys :
    (row : AuditRow) (db db' : Database)
    → insert_event row db ≡ some db'
    → HasUniqueKeys db
    → HasUniqueKeys db'
insert_event-HasUniqueKeys row db db' added unique nonce status =
    let (free, grown) = rows-insert_event nonce status row db db' added in
    elim (Bool-cases (row_key nonce status row)) [
      | inl e ↦
          let (hn, hs) = row_key-eq nonce status row e in
          let zero_rows : rows nonce status db ≡ 0 = rw (hn, hs) at free in
          omega (arith, rw e at grown, zero_rows)
      | inr e ↦ omega (arith, rw e at grown, unique nonce status)
    ]
