-- ===== src/Ledger/Database/Oldest.antt =====
-- The row that `sync_queue` selects.
use autonomous_agent_account.Base.{
  ◌≤◌, String, ◌≡◌, sym, inl, inr, refl, Bool, true, false, ◌&&◌, Option, none, some, List, [], ◌∷◌,
  arith, Any, All, All-mono, count, Bool-cases, leb, eq_refl, if◌then◌else◌, subst,
}
use autonomous_agent_account.Ledger.Database.{
  AuditRow, Database, row_key, is_unsealed, earlier, oldest_unsealed,
}
use autonomous_agent_account.Ledger.Database.Keys.{rows, HasUniqueKeys}

-- The answer of the SELECT: a row of the table without a receipt, as old as every other such row;
-- or nothing, if every row has a receipt.
abbrev pub IsOldest : List AuditRow → Option AuditRow → Type 0
IsOldest rows none = All (λ (x : AuditRow). is_unsealed x ≡ false) rows
IsOldest rows (some r) =
    Any (λ (x : AuditRow). x ≡ r) rows
    × (is_unsealed r ≡ true)
    × All (λ (x : AuditRow). is_unsealed x ≡ true → r.local_timestamp ≤ x.local_timestamp) rows

earlier-new :
    (x s : AuditRow) → leb x.local_timestamp s.local_timestamp ≡ true → earlier x (some s) ≡ x
earlier-new x s h = rw h

earlier-old :
    (x s : AuditRow) → leb x.local_timestamp s.local_timestamp ≡ false → earlier x (some s) ≡ s
earlier-old x s h = rw h

older :
    (x : AuditRow) (xs : List AuditRow) (best : Option AuditRow)
    → IsOldest xs best
    → IsOldest (x ∷ xs) (if is_unsealed x then some (earlier x best) else best)
older x xs none h = elim (Bool-cases (is_unsealed x)) [
  | inl e ↦ rw e (inl refl, e, (λ _. omega arith, All-mono _ _ (λ y p q. cc) xs h))
  | inr e ↦ rw e (e, h)
]
older x xs (some s) (m, u, h) = elim (Bool-cases (is_unsealed x)) [
  | inr e ↦ rw e (inr m, u, (λ q. cc, h))
  | inl e ↦ elim (Bool-cases (leb x.local_timestamp s.local_timestamp)) [
    | inl le ↦ rw e (
        subst (λ v. IsOldest (x ∷ xs) (some v)) (sym (earlier-new x s le))
          (inl refl, e, (λ _. omega arith, All-mono _ _ (λ y p q. ground (arith, p q)) xs h)))
    | inr gt ↦ rw e (
        subst (λ v. IsOldest (x ∷ xs) (some v)) (sym (earlier-old x s gt))
          (inr m, u, (λ _. ground arith, h)))
  ]
]

-- The SELECT finds a row without a receipt that no other is older than, and fails to only if every
-- row has a receipt.
pub oldest_unsealed-IsOldest : (rows : List AuditRow) → IsOldest rows (oldest_unsealed rows)
unfolding oldest_unsealed
oldest_unsealed-IsOldest [] = tt
oldest_unsealed-IsOldest (x ∷ xs) = older x xs (oldest_unsealed xs) (oldest_unsealed-IsOldest xs)

abbrev pub unsealed_key : String → String → AuditRow → Bool
unsealed_key nonce status r = row_key nonce status r && is_unsealed r

member-count :
    (r : AuditRow) (xs : List AuditRow)
    → is_unsealed r ≡ true
    → Any (λ (x : AuditRow). x ≡ r) xs
    → 1 ≤ count (unsealed_key r.nonce r.action_status) xs
member-count r [] u h = absurd h
member-count r (x ∷ xs) u (inl e) =
    rw (e, u, eq_refl r.nonce, eq_refl r.action_status) (omega arith)
member-count r (x ∷ xs) u (inr h) = ground (arith, member-count r xs u h)

pub count-oldest :
    (xs : List AuditRow) (r : AuditRow)
    → oldest_unsealed xs ≡ some r
    → 1 ≤ count (unsealed_key r.nonce r.action_status) xs
count-oldest xs r e =
    let h = subst (IsOldest xs) e (oldest_unsealed-IsOldest xs) in member-count r xs h.1 h.0

count-le :
    (nonce status : String) (xs : List AuditRow)
    → count (unsealed_key nonce status) xs ≤ count (row_key nonce status) xs
count-le nonce status [] = omega arith
count-le nonce status (x ∷ xs) = ground (arith, count-le nonce status xs)

-- Over unique keys the selected row is the only one with its key.
pub rows-oldest :
    (r : AuditRow) (db : Database)
    → HasUniqueKeys db
    → oldest_unsealed db.local_audit_log ≡ some r
    → rows r.nonce r.action_status db ≡ 1
rows-oldest r db unique e = omega (
  arith,
  unique r.nonce r.action_status,
  count-oldest db.local_audit_log r e,
  count-le r.nonce r.action_status db.local_audit_log,
)

-- So exactly one row with its key has no receipt.
pub unsealed-oldest :
    (r : AuditRow) (db : Database)
    → HasUniqueKeys db
    → oldest_unsealed db.local_audit_log ≡ some r
    → count (unsealed_key r.nonce r.action_status) db.local_audit_log ≡ 1
unsealed-oldest r db unique e = omega (
  arith,
  unique r.nonce r.action_status,
  count-oldest db.local_audit_log r e,
  count-le r.nonce r.action_status db.local_audit_log,
)
