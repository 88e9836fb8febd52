-- ===== src/Proxy/Tasks/Log.antt =====
-- The invariant of the log and of the events that the tasks hold, under each kind of change.
pub mod Reached
use autonomous_agent_account.Base.{
  ◌≤◌, String, ◌≡◌, inl, inr, sym, ◌∙◌, ap, subst, Option, none, some, arith, Outcome,
}
use autonomous_agent_account.External.Crypto.{Crypto}
use autonomous_agent_account.Ledger.Database.{AuditRow, Database, insert_event}
use autonomous_agent_account.Ledger.Database.Keys.{
  rows, HasUniqueKeys, insert_event-HasUniqueKeys, rows-insert_event,
}
use autonomous_agent_account.Ledger.Client.{LedgerClient}
use autonomous_agent_account.Ledger.Event.{SealedEvent}
use autonomous_agent_account.Ledger.Event.Stored.{Stored, IsSigned}
use autonomous_agent_account.Ledger.Receipt.Tables.{ReceiptsMatch, insert_event-ReceiptsMatch}
use autonomous_agent_account.Ledger.Receipt.Verified.{WithReceipt}
use autonomous_agent_account.Ledger.Sync.{event_of}
use autonomous_agent_account.Ledger.Sync.Outcome.{Received, Received-ReceiptsMatch}
use autonomous_agent_account.Ledger.Sync.Signed.{
  HasEvent, AllSigned, AllProven, insert_event-HasEvent, WithReceipt-HasEvent,
  insert_event-AllSigned, insert_event-AllProven, WithReceipt-AllSigned, WithReceipt-AllProven,
}
use autonomous_agent_account.Ledger.Sync.Sealed.{
  AllSealed, insert_event-AllSealed, WithReceipt-AllSealed,
}
use autonomous_agent_account.Ledger.Sync.Outcome.{rows-WithReceipt}
use autonomous_agent_account.Proxy.Tasks.Writes.{SameKeys, same-SameKeys, with_db-SameKeys}
use autonomous_agent_account.Proxy.Tasks.Steps.{Holds}

-- An event that a task holds stands in the log, under a key that is there once.
abbrev pub Held : Database → Option AuditRow → Type 0
Held db none = Unit
Held db (some row) = (rows row.nonce row.action_status db ≡ 1) × HasEvent (event_of row) db

pub Held-Holds :
    (db : Database) (held held' : Option AuditRow) → Holds held held' → Held db held → Held db held'
Held-Holds db held held' (inl e) h = subst (Held db) (sym e) tt
Held-Holds db held held' (inr e) h = subst (Held db) (sym e) h

-- A database that has all the keys and the events of another.
Extends : Database → Database → Type 0
Extends db db' =
    ((nonce status : String) → rows nonce status db ≤ rows nonce status db')
    × ((event : SealedEvent) → HasEvent event db → HasEvent event db')

Held-Extends :
    (db db' : Database) (held : Option AuditRow)
    → HasUniqueKeys db'
    → Extends db db'
    → Held db held
    → Held db' held
unfolding Extends
Held-Extends db db' none unique (more, keep) h = tt
Held-Extends db db' (some row) unique (more, keep) (one, there) = (
  omega (arith, one, more row.nonce row.action_status, unique row.nonce row.action_status),
  keep (event_of row) there,
)

module _ ⦃K : Crypto⦄ (first : LedgerClient) where
  -- No key occurs twice and the two tables agree; every event is signed by the device and every
  -- receipt by the ledger, for an event of the log; what the tasks hold is in the log.
  pub record IsLogged (client : LedgerClient) (background final : Option AuditRow) : Type 0 where
    pub keys : SameKeys first client
    pub unique : HasUniqueKeys client.db_conn
    pub agree : ReceiptsMatch client.db_conn
    pub signed : AllSigned first client.db_conn
    pub proven : AllProven first.ledger_pub_key client.db_conn
    pub sealed : AllSealed first.ledger_pub_key client.db_conn
    pub background_held : Held client.db_conn background
    pub final_held : Held client.db_conn final

  SameKeys-trans : (c c' : LedgerClient) → SameKeys first c → SameKeys c c' → SameKeys first c'
  SameKeys-trans c c' (a, b, d) (a', b', d') = (a' ∙ a, b' ∙ b, d' ∙ d)

  module _ (c c' : LedgerClient) (b f b' f' : Option AuditRow) (hb : Holds b b') (hf : Holds f f')
      (h : IsLogged c b f) where
    pub same-IsLogged : c'.db_conn ≡ c.db_conn → SameKeys c c' → IsLogged c' b' f'
    same-IsLogged e keys = record {
      keys = SameKeys-trans c c' h.keys keys;
      unique = rw e h.unique;
      agree = rw e h.agree;
      signed = rw e h.signed;
      proven = rw e h.proven;
      sealed = rw e h.sealed;
      background_held = rw e (Held-Holds c.db_conn b b' hb h.background_held);
      final_held = rw e (Held-Holds c.db_conn f f' hf h.final_held);
    }

    grown-IsLogged :
        SameKeys c c'
        → HasUniqueKeys c'.db_conn
        → ReceiptsMatch c'.db_conn
        → AllSigned first c'.db_conn
        → AllProven first.ledger_pub_key c'.db_conn
        → AllSealed first.ledger_pub_key c'.db_conn
        → Extends c.db_conn c'.db_conn
        → IsLogged c' b' f'
    grown-IsLogged keys unique agree signed proven sealed more = record {
      keys = SameKeys-trans c c' h.keys keys;
      unique = unique;
      agree = agree;
      signed = signed;
      proven = proven;
      sealed = sealed;
      background_held =
          Held-Extends c.db_conn c'.db_conn b' unique more
            (Held-Holds c.db_conn b b' hb h.background_held);
      final_held =
          Held-Extends c.db_conn c'.db_conn f' unique more
            (Held-Holds c.db_conn f f' hf h.final_held);
    }

    own_signature : (raw : String) (row : AuditRow) → IsSigned c raw row → IsSigned first raw row
    own_signature raw row (hash, agent, device, signature) =
        (hash, agent, device ∙ h.keys.0, rw (← h.keys.1) signature)

    pub Stored-IsLogged :
        (raw nonce status : String) (o : Outcome String String)
        → Stored raw nonce status c (o, c')
        → IsLogged c' b' f'
    unfolding Extends
    Stored-IsLogged raw nonce status o
          (row, hn, hs, fresh, signed, (added, free, log, receipts), same, ends) =
        let db = c.db_conn in
        let db' = c'.db_conn in
        grown-IsLogged (with_db-SameKeys c c' db' same)
          (insert_event-HasUniqueKeys row db db' added h.unique)
          (insert_event-ReceiptsMatch row db db' fresh added h.agree)
          (insert_event-AllSigned first raw row db db' (own_signature raw row signed) added
            h.signed)
          (insert_event-AllProven first.ledger_pub_key row db db' added h.proven)
          (insert_event-AllSealed first.ledger_pub_key row db db' fresh added h.sealed)
          (
            (λ n s. omega (arith, (rows-insert_event n s row db db' added).1)),
            λ e. insert_event-HasEvent e row db db' added,
          )

    pub Received-IsLogged :
        (row : AuditRow) → Held c.db_conn (some row) → Received row c c' → IsLogged c' b' f'
    unfolding Extends
    Received-IsLogged row held (inl same) =
        same-IsLogged (ap (λ (x : LedgerClient). x.db_conn) same) (same-SameKeys c c' same)
    Received-IsLogged row (one, there) (inr (sig, ts, proven, stored, same)) =
        let db = c.db_conn in
        let db' = c'.db_conn in
        let status = row.action_status in
        let kept = λ (n : String) (s : String).
          rows-WithReceipt n s (event_of row) sig ts status db db' stored in
        grown-IsLogged (with_db-SameKeys c c' db' same) (λ n s. rw kept (h.unique n s))
          (Received-ReceiptsMatch row c c' (inr (sig, ts, proven, stored, same)) one h.agree)
          (WithReceipt-AllSigned first (event_of row) sig ts status db db' stored h.signed)
          (WithReceipt-AllProven first.ledger_pub_key (event_of row) sig ts db db' stored there
            (rw (← h.keys.2) proven) h.proven)
          (WithReceipt-AllSealed first.ledger_pub_key row sig ts (rw (← h.keys.2) proven) db db'
            stored one there h.sealed)
          (
            (λ n s. omega (arith, kept n s)),
            λ e. WithReceipt-HasEvent e (event_of row) sig ts status db db' stored,
          )
