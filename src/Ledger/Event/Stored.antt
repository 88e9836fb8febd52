-- ===== src/Ledger/Event/Stored.antt =====
-- What `insert_local_event` stores, and when it stores nothing.
use autonomous_agent_account.Base.{
  String, ◌≡◌, [], ◌∷◌, ◌++◌, ◌◇◌, show, ◌≢◌, ◌⊎◌, inl, inr, refl, Option, none, some, arith,
  Result, ok, err, Outcome, done, exited, Bool-cases, Option-cases,
}
use autonomous_agent_account.External.Json.{Json}
use autonomous_agent_account.External.Crypto.{Crypto}
use autonomous_agent_account.Ledger.Database.{AuditRow, Database, insert_event}
use autonomous_agent_account.Ledger.Database.Keys.{rows, rows-insert_event}
use autonomous_agent_account.Ledger.Client.{LedgerClient}
use autonomous_agent_account.Ledger.Event.{
  EventEnv, json_rpc_id, event_nonce, row_of, sealed_event, store_event, insert_local_event,
}

Result-cases : {A E : Type 0} (r : Result A E) → ((e : E) × (r ≡ err e)) ⊎ ((a : A) × (r ≡ ok a))
Result-cases (ok a) = inr (a, refl)
Result-cases (err e) = inl (e, refl)

-- The text that a row's signature is over, read from its columns.
abbrev pub signed_columns : AuditRow → String
signed_columns row =
    row.payload_hash
    ◇ (":"
        ◇ (show row.local_timestamp
            ◇ (":"
                ◇ (row.device_id
                    ◇ (":" ◇ (row.nonce ◇ (":" ◇ (row.agent_id ◇ (":" ◇ row.action_status)))))))))

-- The log is the one before with the row behind it, under a key that no row had, and the receipts
-- are as before.
abbrev pub Added : AuditRow → Database → Database → Type 0
Added row db db' =
    (insert_event row db ≡ some db')
    × (rows row.nonce row.action_status db ≡ 0)
    × (db'.local_audit_log ≡ db.local_audit_log ++ row ∷ [])
    × (db'.receipts ≡ db.receipts)

module _ ⦃K : Crypto⦄ where
  open K use {sha256, hex_encode, sign}

  -- The call ended without a stored row, and changed nothing.
  abbrev pub Unstored : LedgerClient → Outcome String String × LedgerClient → Type 0
  Unstored self (o, self') = (self' ≡ self) × ((nonce : String) → o ≢ done nonce)

  -- The row carries the hash of the payload, the agent of the daemon, the device's name, and the
  -- device's signature over its own columns.
  abbrev pub IsSigned : LedgerClient → String → AuditRow → Type 0
  IsSigned self raw_payload row =
      (row.payload_hash ≡ hex_encode (sha256 raw_payload))
      × (row.agent_id ≡ "autonomous-agent-01")
      × (row.device_id ≡ self.device_id)
      × (row.device_signature ≡ hex_encode (sign self.signing_key (signed_columns row)))

  -- The call stored one row under a key that was free, with no receipt, and changed nothing else.
  abbrev pub Stored :
      String → String → String → LedgerClient → Outcome String String × LedgerClient → Type 0
  Stored raw_payload nonce status self (o, self') =
      (row : AuditRow) × (row.nonce ≡ nonce)
      × (row.action_status ≡ status)
      × (row.receipt_signature ≡ none)
      × IsSigned self raw_payload row
      × Added row self.db_conn self'.db_conn
      × (self' ≡ record self { db_conn = self'.db_conn })
      × ((o ≡ done nonce) ⊎ (o ≡ exited 9))

insert_event-Added :
    (row : AuditRow) (db db' : Database) → insert_event row db ≡ some db' → Added row db db'
unfolding insert_event
insert_event-Added row db db' h =
    (h, (rows-insert_event row.nonce row.action_status row db db' h).0, ground arith, ground arith)

module _ ⦃J : Json⦄ ⦃K : Crypto⦄ where
  module _ (env : EventEnv) (row : AuditRow) (self : LedgerClient) (raw : String)
      (signed : IsSigned self raw row) (fresh : row.receipt_signature ≡ none) where
    store_event-cases :
        Unstored self (store_event env row self)
        ⊎ Stored raw row.nonce row.action_status self (store_event env row self)
    unfolding store_event
    store_event-cases = elim (Bool-cases env.writable) [
      | inr e ↦ rw e (inl (refl, λ n h. cc))
      | inl e ↦ elim (Option-cases (insert_event row self.db_conn)) [
        | inl taken ↦ rw (e, taken) (inl (refl, λ n h. cc))
        | inr (db, added) ↦
            rw (e, added)
              (inr (
                row,
                refl,
                refl,
                fresh,
                signed,
                insert_event-Added row self.db_conn db added,
                refl,
                ground arith,
              ))
      ]
    ]

  -- A call either stores nothing and changes nothing, or adds exactly one row behind the log and
  -- leaves the receipts, under the event's nonce and status, a key that no row had. The row has no
  -- receipt, holds the payload's hash, the agent, the device and the device's signature over its own
  -- columns, and the call then returns the nonce or dies by fault injection.
  pub insert_local_event-cases :
      (env : EventEnv) (raw status : String) (provided : Option String) (self : LedgerClient)
      → Unstored self (insert_local_event env raw status provided self)
        ⊎ Stored raw
            (event_nonce env provided)
            status
            self
            (insert_local_event env raw status provided self)
  unfolding insert_local_event
  insert_local_event-cases env raw status provided self =
      elim (Result-cases (K.encrypt self.encryption_key env.nonce_bytes raw)) [
        | inl (e, h) ↦ rw (h, insert_local_event) (inl (refl, λ n h. cc))
        | inr (cipher, h) ↦ elim (Option-cases (json_rpc_id raw)) [
          | inl p ↦ rw (h, p, insert_local_event) (inl (refl, λ n h. cc))
          | inr (id, p) ↦
              rw (h, p, insert_local_event)
                (store_event-cases env
                  (row_of (sealed_event env raw status (event_nonce env provided) cipher self) id)
                  self raw (refl, refl, refl, refl) refl)
        ]
      ]
