-- ===== src/Ledger/Sync/Sealed.antt =====
-- The columns of the log that hold a receipt.
use autonomous_agent_account.Base.{
  ℕ, String, ◌≡◌, inl, inr, refl, sym, ap, subst, true, some, none, Option, List, [], ◌∷◌, map, All,
  All-append, only_passes, eq_refl, Bool-cases,
}
use autonomous_agent_account.External.Crypto.{Crypto}
use autonomous_agent_account.Ledger.Database.{AuditRow, Database, row_key, insert_event}
use autonomous_agent_account.Ledger.Database.Keys.{rows}
use autonomous_agent_account.Ledger.Event.{SealedEvent}
use autonomous_agent_account.Ledger.Receipt.Verified.{WithReceipt}
use autonomous_agent_account.Ledger.Sync.{event_of}
use autonomous_agent_account.Ledger.Sync.Outcome.{IsProven}
use autonomous_agent_account.Ledger.Sync.Signed.{
  HasEvent, sealing, insert_event-tables, WithReceipt-tables,
}

module _ ⦃K : Crypto⦄ where
  open K use {VerifyingKey}

  -- The two columns of a receipt: the first is NULL, or they are the ledger's signature over the
  -- event.
  abbrev pub SealedBy : VerifyingKey → SealedEvent → Option String → Option ℕ → Type 0
  SealedBy key event none _ = Unit
  SealedBy key event (some sig) (some ts) = IsProven key event sig ts
  SealedBy key event (some sig) none = ⊥

  abbrev Sealed : VerifyingKey → AuditRow → Type 0
  Sealed key x = SealedBy key (event_of x) x.receipt_signature x.ledger_timestamp

  abbrev pub AllSealed : VerifyingKey → Database → Type 0
  AllSealed key db = All (Sealed key) db.local_audit_log

  pub insert_event-AllSealed :
      (key : VerifyingKey) (row : AuditRow) (db db' : Database)
      → row.receipt_signature ≡ none
      → insert_event row db ≡ some db'
      → AllSealed key db
      → AllSealed key db'
  insert_event-AllSealed key row db db' fresh added h =
      rw (insert_event-tables row db db' added).0 (
        All-append (Sealed key) db.local_audit_log (row ∷ []) h
          (subst (λ o. SealedBy key (event_of row) o row.ledger_timestamp) (sym fresh) tt, tt))

  module _ (key : VerifyingKey) (row : AuditRow) (sig : String) (ts : ℕ)
      (proven : IsProven key (event_of row) sig ts) where
    sealing-Sealed :
        (x : AuditRow)
        → (row_key row.nonce row.action_status x ≡ true → event_of x ≡ event_of row)
        → Sealed key x
        → Sealed key (sealing sig ts row.nonce row.action_status x)
    sealing-Sealed x same h = elim (Bool-cases (row_key row.nonce row.action_status x)) [
      | inl e ↦ rw e (subst (λ event. IsProven key event sig ts) (sym (same e)) proven)
      | inr e ↦ rw e h
    ]

    sealing-All :
        (xs : List AuditRow)
        → All
            (λ (x : AuditRow).
              row_key row.nonce row.action_status x ≡ true → event_of x ≡ event_of row)
            xs
        → All (Sealed key) xs
        → All (Sealed key) (map (sealing sig ts row.nonce row.action_status) xs)
    sealing-All [] same h = tt
    sealing-All (x ∷ xs) (e, same) (p, h) = (sealing-Sealed x e p, sealing-All xs same h)

    -- The key occurs once, so that no other event takes the receipt.
    pub WithReceipt-AllSealed :
        (db db' : Database)
        → WithReceipt (event_of row) sig ts row.action_status db db'
        → rows row.nonce row.action_status db ≡ 1
        → HasEvent (event_of row) db
        → AllSealed key db
        → AllSealed key db'
    WithReceipt-AllSealed db db' stored one there h =
        rw (WithReceipt-tables (event_of row) sig ts row.action_status db db' stored).0 (
          sealing-All db.local_audit_log
            (only_passes (row_key row.nonce row.action_status)
              (λ (x : AuditRow). event_of x ≡ event_of row) (λ x e. key_of x e) db.local_audit_log
              one there)
            h)
      where
        key_of :
            (x : AuditRow)
            → event_of x ≡ event_of row
            → row_key row.nonce row.action_status x ≡ true
        key_of x e =
            rw
              (
                ap (λ (v : SealedEvent). v.nonce) e,
                ap (λ (v : SealedEvent). v.action_status) e,
                eq_refl row.nonce,
                eq_refl row.action_status,
              )
              refl
