-- ===== src/Proxy/Tasks/Log/Reached.antt =====
-- What holds of the log in every state that the tasks reach, however they are interleaved.
use autonomous_agent_account.Base.{◌≡◌, ◌⊎◌, inl, inr, refl, sym, ap, subst, Option, some, arith}
use autonomous_agent_account.External.Json.{Json}
use autonomous_agent_account.External.Crypto.{Crypto}
use autonomous_agent_account.Ledger.Database.{AuditRow, Database, empty_database, oldest_unsealed}
use autonomous_agent_account.Ledger.Database.Keys.{HasUniqueKeys}
use autonomous_agent_account.Ledger.Database.Oldest.{rows-oldest}
use autonomous_agent_account.Ledger.Client.{LedgerClient}
use autonomous_agent_account.Ledger.Receipt.Tables.{ReceiptsMatch}
use autonomous_agent_account.Proxy.State.{Settings, Shared}
use autonomous_agent_account.Ledger.Sync.Signed.{AllSigned, AllProven, oldest-HasEvent}
use autonomous_agent_account.Ledger.Sync.Sealed.{AllSealed}
use autonomous_agent_account.Proxy.Relay.Log.{IsConsistent}
use autonomous_agent_account.Proxy.Tasks.{Tasks, Reach, here, next}
use autonomous_agent_account.Proxy.Tasks.Writes.{same-SameKeys, Wrote, stays, sends, stores}
use autonomous_agent_account.Proxy.Tasks.Steps.{
  Holds, Effect, writes, selects, receives, Step-Effect,
}
use autonomous_agent_account.Proxy.Tasks.Log.{
  Held, Held-Holds, IsLogged, same-IsLogged, Stored-IsLogged, Received-IsLogged,
}

module _ ⦃J : Json⦄ ⦃K : Crypto⦄ (first : LedgerClient) where
  abbrev pub Logged : Tasks → Type 0
  Logged t = IsLogged first t.shared.ledger_client t.background t.final

  written-Logged :
      (t t' : Tasks)
      → Wrote t.shared t'.shared
      → Holds t.background t'.background
      → Holds t.final t'.final
      → Logged t
      → Logged t'
  written-Logged t t' (stays child same keys) hb hf h =
      same-IsLogged first t.shared.ledger_client t'.shared.ledger_client t.background t.final
        t'.background t'.final hb hf h same keys
  written-Logged t t' (sends line child same) hb hf h =
      same-IsLogged first t.shared.ledger_client t'.shared.ledger_client t.background t.final
        t'.background t'.final hb hf h (ap (λ (c : LedgerClient). c.db_conn) same)
        (same-SameKeys t.shared.ledger_client t'.shared.ledger_client same)
  written-Logged t t' (stores raw nonce status o which child stored) hb hf h =
      Stored-IsLogged first t.shared.ledger_client t'.shared.ledger_client t.background t.final
        t'.background t'.final hb hf h raw nonce status o stored

  selected-Held :
      (db : Database) (row : AuditRow) (held held' : Option AuditRow)
      → Held db (some row)
      → Holds held held' ⊎ (held' ≡ some row)
      → Held db held
      → Held db held'
  selected-Held db row held held' new (inl holds) h = Held-Holds db held held' holds h
  selected-Held db row held held' new (inr e) h = subst (Held db) (sym e) new

  selected-Logged :
      (t t' : Tasks) (row : AuditRow)
      → t'.shared ≡ t.shared
      → oldest_unsealed t.shared.ledger_client.db_conn.local_audit_log ≡ some row
      → Holds t.background t'.background ⊎ (t'.background ≡ some row)
      → Holds t.final t'.final ⊎ (t'.final ≡ some row)
      → Logged t
      → Logged t'
  selected-Logged t t' row same found hb hf h =
      let db = t.shared.ledger_client.db_conn in
      let new : Held db (some row) =
        (rows-oldest row db h.unique found, oldest-HasEvent row db found) in
      subst (λ (s : Shared). IsLogged first s.ledger_client t'.background t'.final) (sym same)
        (record {
          keys = h.keys;
          unique = h.unique;
          agree = h.agree;
          signed = h.signed;
          proven = h.proven;
          sealed = h.sealed;
          background_held =
              selected-Held db row t.background t'.background new hb h.background_held;
          final_held = selected-Held db row t.final t'.final new hf h.final_held;
        })

  Held-Logged :
      (t : Tasks) (row : AuditRow)
      → (t.background ≡ some row) ⊎ (t.final ≡ some row)
      → Logged t
      → Held t.shared.ledger_client.db_conn (some row)
  Held-Logged t row (inl e) h = subst (Held t.shared.ledger_client.db_conn) e h.background_held
  Held-Logged t row (inr e) h = subst (Held t.shared.ledger_client.db_conn) e h.final_held

  Effect-Logged : (t t' : Tasks) → Effect t t' → Logged t → Logged t'
  Effect-Logged t t' (writes wrote hb hf) h = written-Logged t t' wrote hb hf h
  Effect-Logged t t' (selects row same found hb hf) h = selected-Logged t t' row same found hb hf h
  Effect-Logged t t' (receives row held child received hb hf) h =
      Received-IsLogged first t.shared.ledger_client t'.shared.ledger_client t.background t.final
        t'.background t'.final hb hf h row (Held-Logged t row held h) received

  pub Reach-Logged :
      (set : Settings) (t : Tasks) → first.db_conn ≡ empty_database → Reach set first t → Logged t
  Reach-Logged set _ e here = record {
    keys = (refl, refl, refl);
    unique = subst HasUniqueKeys (sym e) (λ n s. omega arith);
    agree = subst ReceiptsMatch (sym e) (λ n s. refl);
    signed = subst (AllSigned first) (sym e) tt;
    proven = subst (AllProven first.ledger_pub_key) (sym e) tt;
    sealed = subst (AllSealed first.ledger_pub_key) (sym e) tt;
    background_held = tt;
    final_held = tt;
  }
  Reach-Logged set _ e (next {t} {t'} path step) =
      Effect-Logged t t' (Step-Effect set t t' step) (Reach-Logged set t e path)

  module _ (set : Settings) (t : Tasks) (empty : first.db_conn ≡ empty_database)
      (path : Reach set first t) where
    -- In every state that the interleaved tasks reach from an empty database, no nonce and status
    -- occur twice in the log, and the receipts are exactly those of the events that the log has with
    -- a receipt, counted by nonce and status; two synchronisations at a time, which may have selected
    -- the same event, included.
    pub reached-IsConsistent : IsConsistent t.shared.ledger_client.db_conn
    reached-IsConsistent = let h = Reach-Logged set t empty path in (h.unique, h.agree)

    -- In every state that the interleaved tasks reach from an empty database, every event of the log
    -- holds the hash of some payload, the daemon's agent, the name of the device, and the device's
    -- signature over its own columns, after the UPDATE of a receipt as before it.
    pub reached-AllSigned : AllSigned first t.shared.ledger_client.db_conn
    reached-AllSigned = (Reach-Logged set t empty path).signed

    -- In every state that the interleaved tasks reach from an empty database, an event of the log
    -- whose receipt_signature is not NULL has a ledger_timestamp, which fits an i64, and the
    -- signature is 64 bytes that verify under the ledger's key for the columns of that very event,
    -- that timestamp and some chain hash.
    pub reached-AllSealed : AllSealed first.ledger_pub_key t.shared.ledger_client.db_conn
    reached-AllSealed = (Reach-Logged set t empty path).sealed

    -- In every state that the interleaved tasks reach from an empty database, every row of receipts
    -- belongs to an event of the log with its nonce and status, has a timestamp that fits an i64,
    -- and holds a signature that verifies under the ledger's key for that event, that timestamp and
    -- some chain hash.
    pub reached-AllProven : AllProven first.ledger_pub_key t.shared.ledger_client.db_conn
    reached-AllProven = (Reach-Logged set t empty path).proven
