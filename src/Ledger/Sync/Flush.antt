-- ===== src/Ledger/Sync/Flush.antt =====
-- Several calls of `sync_queue` in a row, as at the end of the relay.
use autonomous_agent_account.Base.{
  ℕ, zero, suc, ◌-◌, ◌≡◌, refl, ap, subst, true, false, none, List, [], ◌∷◌, arith, count, All, inl,
  inr, Option-cases,
}
use autonomous_agent_account.External.Json.{Json}
use autonomous_agent_account.External.Crypto.{Crypto}
use autonomous_agent_account.Ledger.Database.{AuditRow, Database, is_unsealed, oldest_unsealed}
use autonomous_agent_account.Ledger.Database.Keys.{HasUniqueKeys}
use autonomous_agent_account.Ledger.Database.Oldest.{IsOldest, oldest_unsealed-IsOldest}
use autonomous_agent_account.Ledger.Client.{LedgerClient}
use autonomous_agent_account.Ledger.Receipt.Tables.{ReceiptsMatch}
use autonomous_agent_account.Ledger.Sync.{SyncEnv, sync_queue, sync_rounds}
use autonomous_agent_account.Ledger.Sync.Outcome.{
  Synced, sync_queue-none, sync_queue-Synced, rows-sync_queue, sync_queue-ReceiptsMatch,
}
use autonomous_agent_account.Ledger.Sync.Progress.{unsealed, Accepts, Runs, sync_queue-accepted}

All-count :
    (xs : List AuditRow)
    → All (λ (x : AuditRow). is_unsealed x ≡ false) xs
    → count is_unsealed xs ≡ 0
All-count [] h = refl
All-count (x ∷ xs) (e, h) = rw e (All-count xs h)

unsealed-none : (db : Database) → oldest_unsealed db.local_audit_log ≡ none → unsealed db ≡ 0
unsealed-none db e =
    All-count db.local_audit_log
      (subst (IsOldest db.local_audit_log) e (oldest_unsealed-IsOldest db.local_audit_log))

module _ ⦃K : Crypto⦄ where
  -- The address and the key of the ledger stay.
  Synced-ledger :
      (self self' : LedgerClient)
      → Synced self self'
      → (self'.ledger_url ≡ self.ledger_url) × (self'.ledger_pub_key ≡ self.ledger_pub_key)
  Synced-ledger self self' (inl same) = (
    ap (λ (c : LedgerClient). c.ledger_url) same,
    ap (λ (c : LedgerClient). c.ledger_pub_key) same,
  )
  Synced-ledger self self' (inr (row, found, inl same)) = (
    ap (λ (c : LedgerClient). c.ledger_url) same,
    ap (λ (c : LedgerClient). c.ledger_pub_key) same,
  )
  Synced-ledger self self' (inr (row, found, inr (sig, ts, proven, stored, same))) = (
    ap (λ (c : LedgerClient). c.ledger_url) same,
    ap (λ (c : LedgerClient). c.ledger_pub_key) same,
  )

module _ ⦃J : Json⦄ ⦃K : Crypto⦄ where
  -- Every round reads the database, runs its transaction, and meets a ledger that accepts whatever
  -- event it is sent.
  abbrev pub AllAccepted : (ℕ → SyncEnv) → LedgerClient → Type 0
  AllAccepted envs self =
      (n : ℕ)
      → ((envs n).readable ≡ true)
        × Runs (envs n).tx
        × ((row : AuditRow) → Accepts (envs n).post self.ledger_url self.ledger_pub_key row)

  one_round :
      (env : SyncEnv) (self : LedgerClient)
      → env.readable ≡ true
      → Runs env.tx
      → ((row : AuditRow) → Accepts env.post self.ledger_url self.ledger_pub_key row)
      → HasUniqueKeys self.db_conn
      → ReceiptsMatch self.db_conn
      → unsealed (sync_queue env.readable env.post env.tx self).db_conn ≡ unsealed self.db_conn - 1
  one_round env self readable runs accepts unique agree =
      rw readable (elim (Option-cases (oldest_unsealed self.db_conn.local_audit_log)) [
        | inl e ↦
            rw (sync_queue-none env.post env.tx self e)
              (omega (arith, unsealed-none self.db_conn e))
        | inr (row, e) ↦
            omega (
              arith,
              sync_queue-accepted env.post env.tx row self runs unique agree e (accepts row),
            )
      ])

  AllAccepted-Synced :
      (envs : ℕ → SyncEnv) (self self' : LedgerClient)
      → Synced self self'
      → AllAccepted envs self
      → AllAccepted envs self'
  AllAccepted-Synced envs self self' synced good n =
      let (url, key) = Synced-ledger self self' synced in
      ((good n).0, (good n).1, λ row. rw (url, key) ((good n).2 row))

  -- Over a log with unique keys that agrees with the receipts, with a ledger that accepts every event
  -- and a database that works, a number of rounds takes that many events from the queue, or all of
  -- them if there are fewer.
  pub unsealed-sync_rounds :
      (k : ℕ) (envs : ℕ → SyncEnv) (self : LedgerClient)
      → AllAccepted envs self
      → HasUniqueKeys self.db_conn
      → ReceiptsMatch self.db_conn
      → unsealed (sync_rounds k envs self).db_conn ≡ unsealed self.db_conn - k
  unfolding sync_rounds
  unsealed-sync_rounds zero envs self good unique agree = omega arith
  unsealed-sync_rounds (suc k) envs self good unique agree =
      let env = envs k in
      let self' = sync_queue env.readable env.post env.tx self in
      omega (
        arith,
        one_round env self (good k).0 (good k).1 (good k).2 unique agree,
        unsealed-sync_rounds k envs self'
            (AllAccepted-Synced envs self self'
              (sync_queue-Synced env.readable env.post env.tx self) good)
            (λ nonce status.
              rw (rows-sync_queue nonce status env.readable env.post env.tx self)
                (unique nonce status))
            (sync_queue-ReceiptsMatch env.readable env.post env.tx self unique agree),
      )
