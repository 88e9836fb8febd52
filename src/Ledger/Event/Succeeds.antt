-- ===== src/Ledger/Event/Succeeds.antt =====
-- When `insert_local_event` succeeds.
use autonomous_agent_account.Base.{
  String, ◌≡◌, inl, inr, refl, true, false, Option, some, [], ◌∷◌, ◌++◌, arith, any, any-eq-count,
  ok, done, Bool-cases,
}
use autonomous_agent_account.External.Json.{Json}
use autonomous_agent_account.External.Crypto.{Crypto, Bytes}
use autonomous_agent_account.Ledger.Database.{AuditRow, Database, row_key, insert_event}
use autonomous_agent_account.Ledger.Database.Keys.{rows}
use autonomous_agent_account.Ledger.Client.{LedgerClient}
use autonomous_agent_account.Ledger.Event.Stored.{IsSigned}
use autonomous_agent_account.Ledger.Event.{
  EventEnv, json_rpc_id, sealed_event, row_of, store_event, insert_local_event,
}

free_key :
    (row : AuditRow) (db : Database)
    → rows row.nonce row.action_status db ≡ 0
    → insert_event row db ≡ some (record db { local_audit_log = db.local_audit_log ++ row ∷ [] })
unfolding insert_event
free_key row db h =
    elim (Bool-cases (any (row_key row.nonce row.action_status) db.local_audit_log)) [
      | inl e ↦ absurd (
          omega (arith, h, any-eq-count (row_key row.nonce row.action_status) db.local_audit_log e))
      | inr e ↦ rw e refl
    ]

module _ ⦃J : Json⦄ ⦃K : Crypto⦄ where
  open K use {encrypt}

  -- The client with the row of an event behind its log.
  abbrev pub with_row : AuditRow → LedgerClient → LedgerClient
  with_row row self = record self {
    db_conn = record (self.db_conn) { local_audit_log = self.db_conn.local_audit_log ++ row ∷ [] };
  }

  -- With a key that is free, a cipher that works, a payload whose id has a text, and a database that
  -- writes, the event is stored and its nonce returned.
  pub insert_local_event-done :
      (env : EventEnv) (raw status nonce : String) (self : LedgerClient) (cipher : Bytes)
      (id : Option String)
      → encrypt self.encryption_key env.nonce_bytes raw ≡ ok cipher
      → json_rpc_id raw ≡ some id
      → env.writable ≡ true
      → env.crash_after_db_insert ≡ false
      → rows nonce status self.db_conn ≡ 0
      → (row : AuditRow) × (row.nonce ≡ nonce)
        × (row.action_status ≡ status)
        × IsSigned self raw row
        × (insert_local_event env raw status (some nonce) self ≡ (done nonce, with_row row self))
  unfolding insert_local_event store_event
  insert_local_event-done env raw status nonce self cipher id c i writes survives free =
      let row = row_of (sealed_event env raw status nonce cipher self) id in
      let added = free_key row self.db_conn free in
      (
        row,
        refl,
        refl,
        (refl, refl, refl, refl),
        rw (c, i, insert_local_event, store_event, writes, added, survives) refl,
      )
