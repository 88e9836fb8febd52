-- ===== src/Ledger/Event/RoundTrip.antt =====
-- An event that is stored is the one that is looked up, and the one that is sent.
use autonomous_agent_account.Base.{
  String, ◌≡◌, ◌⊎◌, inl, inr, refl, subst, true, ◌◇◌, none, some, List, [], ◌∷◌, ◌++◌, any-append,
  eq_refl, arith, Outcome, done, Bool-cases,
}
use autonomous_agent_account.Base.Int.{pos}
use autonomous_agent_account.External.Json.{Json}
use autonomous_agent_account.External.Crypto.{Crypto}
use autonomous_agent_account.External.Http.{Reply}
use autonomous_agent_account.Ledger.Database.{
  AuditRow, Database, select_nonce, insert_event, is_unsealed, oldest_unsealed,
}
use autonomous_agent_account.Ledger.Client.{LedgerClient}
use autonomous_agent_account.Ledger.Lease.{has_nonce}
use autonomous_agent_account.Ledger.Event.{EventEnv, insert_local_event}
use autonomous_agent_account.Ledger.Event.Stored.{
  Stored, Unstored, IsSigned, insert_local_event-cases,
}
use autonomous_agent_account.Ledger.Receipt.{TxEnv}
use autonomous_agent_account.Ledger.Sync.{event_of, seal_reply, sync_queue}
use autonomous_agent_account.Ledger.Sync.Outcome.{sync_queue-some}
use autonomous_agent_account.Ledger.Sync.Signed.{insert_event-tables}

-- The only row without a receipt is the oldest of them.
oldest-append :
    (row : AuditRow) (xs : List AuditRow)
    → row.receipt_signature ≡ none
    → oldest_unsealed xs ≡ none
    → oldest_unsealed (xs ++ row ∷ []) ≡ some row
unfolding oldest_unsealed
oldest-append row [] fresh h = rw fresh refl
oldest-append row (x ∷ xs) fresh h = elim (Bool-cases (is_unsealed x)) [
  | inl e ↦ ground (arith, h, e)
  | inr e ↦ rw e (oldest-append row xs fresh (rw e at h))
]

select-inserted :
    (row : AuditRow) (db db' : Database)
    → insert_event row db ≡ some db'
    → select_nonce row.nonce db' ≡ true
unfolding select_nonce
select-inserted row db db' added =
    rw ((insert_event-tables row db db' added).0, any-append, eq_refl row.nonce) (ground arith)

module _ ⦃J : Json⦄ ⦃K : Crypto⦄ where
  open J use {Value, string, int, object}

  -- A row as the ledger is sent it.
  abbrev pub sent_columns : AuditRow → Value
  sent_columns row = object (
      ("payload_hash", string row.payload_hash)
      ∷ ("agent_id", string row.agent_id)
      ∷ ("local_timestamp", int (pos row.local_timestamp))
      ∷ ("nonce", string row.nonce)
      ∷ ("device_id", string row.device_id)
      ∷ ("device_signature", string row.device_signature)
      ∷ ("action_status", string row.action_status)
      ∷ [])

  module _ (raw nonce status : String) (self self' : LedgerClient) where
    -- The row behind the log is the event, and its columns are what the next synchronisation posts.
    abbrev pub IsNext : (String → Value → Reply) → TxEnv → Type 0
    IsNext post tx =
        (row : AuditRow) × (row.nonce ≡ nonce)
        × (row.action_status ≡ status)
        × IsSigned self raw row
        × (self'.db_conn.local_audit_log ≡ self.db_conn.local_audit_log ++ row ∷ [])
        × (sync_queue true post tx self'
            ≡ seal_reply tx (event_of row) (post (self'.ledger_url ◇ "/seal") (sent_columns row))
                self')

    Stored-IsNext :
        (post : String → Value → Reply) (tx : TxEnv) (o : Outcome String String)
        → Stored raw nonce status self (o, self')
        → oldest_unsealed self.db_conn.local_audit_log ≡ none
        → (has_nonce true nonce self' ≡ true) × IsNext post tx
    unfolding has_nonce
    Stored-IsNext post tx o (row, hn, hs, fresh, signed, (added, free, log, receipts), same, ends)
          idle =
        (
          rw (← hn, select-inserted row self.db_conn self'.db_conn added) refl,
          (
            row,
            hn,
            hs,
            signed,
            log,
            sync_queue-some post tx row self' (
                rw (insert_event-tables row self.db_conn self'.db_conn added).0
                  (oldest-append row self.db_conn.local_audit_log fresh idle)),
          ),
        )

  -- If insert_local_event returns a nonce, from a database whose events all have a receipt, then it
  -- is the nonce that was asked for, has_nonce finds it, and the event is the row behind the log, with
  -- that nonce and status, the hash of the payload, and the device's signature over its columns; and
  -- the next call of sync_queue on a database that can be read posts these columns to /seal.
  pub insert_local_event-RoundTrip :
      (env : EventEnv) (raw status nonce n : String) (self self' : LedgerClient)
      (post : String → Value → Reply) (tx : TxEnv)
      → insert_local_event env raw status (some nonce) self ≡ (done n, self')
      → oldest_unsealed self.db_conn.local_audit_log ≡ none
      → (n ≡ nonce)
        × (has_nonce true nonce self' ≡ true)
        × IsNext raw nonce status self self' post tx
  insert_local_event-RoundTrip env raw status nonce n self self' post tx e idle = go (
      subst
        (λ (r : Outcome String String × LedgerClient).
          Unstored self r ⊎ Stored raw nonce status self r)
        e (insert_local_event-cases env raw status (some nonce) self))
    where
      go :
          Unstored self (done n, self') ⊎ Stored raw nonce status self (done n, self')
          → (n ≡ nonce)
            × (has_nonce true nonce self' ≡ true)
            × IsNext raw nonce status self self' post tx
      go (inl (same, not_done)) = absurd (not_done n refl)
      go (inr (row, hn, hs, fresh, signed, (added, free, log, receipts), same, inl ends)) =
          let (known, sent) =
            Stored-IsNext raw nonce status self self' post tx (done n)
              (row, hn, hs, fresh, signed, (added, free, log, receipts), same, inl ends) idle in
          (cc, known, sent)
      go (inr (row, hn, hs, fresh, signed, (added, free, log, receipts), same, inr ends)) = cc
