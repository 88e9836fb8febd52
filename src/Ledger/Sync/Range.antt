-- ===== src/Ledger/Sync/Range.antt =====
-- The timestamp of a receipt: an i64 that the code casts to a u64, which SQLite takes below 2^63.
use autonomous_agent_account.Base.{
  ℕ, suc, ◌≤◌, ◌<◌, ◌^◌, String, ◌≡◌, ◌∙◌, refl, ◌◇◌, Option, none, some, true, arith, and_then,
  Result, ok, err,
}
use autonomous_agent_account.Base.Int.{negsuc, to_u64}
use autonomous_agent_account.External.Json.{Json}
use autonomous_agent_account.External.Crypto.{Crypto}
use autonomous_agent_account.External.Http.{Reply, Response, response}
use autonomous_agent_account.Ledger.Database.{AuditRow, oldest_unsealed}
use autonomous_agent_account.Ledger.Client.{LedgerClient}
use autonomous_agent_account.Ledger.Event.{SealedEvent}
use autonomous_agent_account.Ledger.Receipt.{TxEnv, verify_and_store_receipt}
use autonomous_agent_account.Ledger.Receipt.Verified.{
  ReceiptResult, verify_and_store_receipt-ReceiptResult,
}
use autonomous_agent_account.Ledger.Sync.{event_of, seal_body, take_receipt, seal_reply, sync_queue}
use autonomous_agent_account.Ledger.Sync.Outcome.{sync_queue-some}

-- A negative i64 becomes a u64 that no i64 holds.
pub to_u64-negsuc :
    (k : ℕ) → suc k ≤ 2 ^ 63 → (2 ^ 63 ≤ to_u64 (negsuc k)) × (to_u64 (negsuc k) < 2 ^ 64)
to_u64-negsuc k small = (omega arith, omega arith)

module _ ⦃J : Json⦄ ⦃K : Crypto⦄ where
  open J use {Value, get, as_str, as_i64}

  unstored :
      (event : SealedEvent) (sig_hex : String) (ts : ℕ) (ch status : String)
      (self self' : LedgerClient) (r : Result Unit String)
      → 2 ^ 63 ≤ ts
      → ReceiptResult event sig_hex ts ch status self (r, self')
      → self' ≡ self
  unstored event sig ts ch status self self' (ok u) big
        (bytes, d, l, v, small, tables, rest, same) =
      absurd (omega (arith, big, small))
  unstored event sig ts ch status self self' (err e) big same = same

  take_negative :
      (tx : TxEnv) (event : SealedEvent) (sig ch : Option String) (k : ℕ) (self : LedgerClient)
      → suc k ≤ 2 ^ 63
      → take_receipt tx event sig (some (negsuc k)) ch self ≡ self
  unfolding take_receipt
  take_negative tx event none ch k self small = refl
  take_negative tx event (some sig) none k self small = refl
  take_negative tx event (some sig) (some ch) k self small =
      let r =
        verify_and_store_receipt tx event sig (to_u64 (negsuc k)) ch event.action_status self in
      unstored event sig (to_u64 (negsuc k)) ch event.action_status self r.1 r.0
        (to_u64-negsuc k small).0
        (verify_and_store_receipt-ReceiptResult tx event sig (to_u64 (negsuc k)) ch
          event.action_status self)

  -- A receipt whose ledger_timestamp is negative is never stored, whatever its signature: the cast
  -- makes it 2^63 or more, which SQLite refuses, so that the client is as it was and the event stays
  -- at the head of the queue.
  pub sync_queue-negative :
      (post : String → Value → Reply) (tx : TxEnv) (row : AuditRow) (r : Response) (json : Value)
      (k : ℕ) (self : LedgerClient)
      → oldest_unsealed self.db_conn.local_audit_log ≡ some row
      → post (self.ledger_url ◇ "/seal") (seal_body (event_of row)) ≡ response r
      → r.is_success ≡ true
      → r.body ≡ some json
      → and_then (get json "ledger_timestamp") as_i64 ≡ some (negsuc k)
      → suc k ≤ 2 ^ 63
      → sync_queue true post tx self ≡ self
  unfolding seal_reply
  sync_queue-negative post tx row r json k self found sent success body ts small =
      sync_queue-some post tx row self found
      ∙ rw (sent, success, body, ts, seal_reply)
          (take_negative tx (event_of row) (and_then (get json "receipt_signature") as_str)
            (and_then (get json "chain_hash") as_str) k self small)
