-- ===== src/Proxy/Relay/Log.antt =====
-- What holds of the local log in every state that the relay reaches.
use autonomous_agent_account.Base.{
  String, ◌≡◌, inl, inr, refl, sym, subst, Bool, Option, arith, Outcome,
}
use autonomous_agent_account.External.Json.{Json}
use autonomous_agent_account.External.Crypto.{Crypto}
use autonomous_agent_account.Ledger.Database.{Database, empty_database}
use autonomous_agent_account.Ledger.Database.Keys.{insert_event-HasUniqueKeys, HasUniqueKeys}
use autonomous_agent_account.Ledger.Client.{LedgerClient}
use autonomous_agent_account.Ledger.Lease.Grants.{Leased-db}
use autonomous_agent_account.Ledger.Event.Stored.{Stored}
use autonomous_agent_account.Ledger.Receipt.Tables.{ReceiptsMatch, insert_event-ReceiptsMatch}
use autonomous_agent_account.Ledger.Sync.{SyncEnv}
use autonomous_agent_account.Ledger.Sync.Outcome.{rows-sync_queue, sync_queue-ReceiptsMatch}
use autonomous_agent_account.Proxy.State.{Settings, Flow, Shared}
use autonomous_agent_account.Proxy.Client.{ClientEnv, client_line}
use autonomous_agent_account.Proxy.Client.Effect.{call_nonce, LineEffect, client_line-LineEffect}
use autonomous_agent_account.Proxy.Server.{ServerEnv, server_line}
use autonomous_agent_account.Proxy.Server.Seal.{
  Answer, answers, ServerEffect, server_line-ServerEffect,
}
use autonomous_agent_account.Proxy.Relay.{
  Relay, synced, restarted, Step, client_step, server_step, sync_step, restart, client_crash,
  server_crash, Reach, here, next,
}
use autonomous_agent_account.Proxy.Relay.Steps.{after_client-shared, after_server-shared}

-- No key occurs twice in the log, and the two tables agree on which events have a receipt.
abbrev pub IsConsistent : Database → Type 0
IsConsistent db = HasUniqueKeys db × ReceiptsMatch db

module _ ⦃J : Json⦄ ⦃K : Crypto⦄ where
  Stored-IsConsistent :
      (raw nonce status : String) (client client' : LedgerClient) (o : Outcome String String)
      → Stored raw nonce status client (o, client')
      → IsConsistent client.db_conn
      → IsConsistent client'.db_conn
  Stored-IsConsistent raw nonce status client client' o
        (row, hn, hs, fresh, signed, (added, free, log, receipts), same, ends) (unique, agree) =
      (
        insert_event-HasUniqueKeys row client.db_conn client'.db_conn added unique,
        insert_event-ReceiptsMatch row client.db_conn client'.db_conn fresh added agree,
      )

module _ ⦃J : Json⦄ ⦃K : Crypto⦄ (set : Settings) where
  abbrev Consistent : Shared → Type 0
  Consistent s = IsConsistent s.ledger_client.db_conn

  LineEffect-Consistent :
      (env : ClientEnv) (line : String) (call : Option String) (s s' : Shared)
      → LineEffect env line call s s'
      → Consistent s
      → Consistent s'
  LineEffect-Consistent env line call s s' (inl (a, b, c)) h = subst IsConsistent (sym c) h
  LineEffect-Consistent env line call s s' (inr (inl (same, e))) h = subst Consistent (sym same) h
  LineEffect-Consistent env line call s s'
        (inr (inr (n, e, (client, o, id, leased, stored, flight, sent)))) h =
      Stored-IsConsistent _ n "SEAL_REQUESTED" client s'.ledger_client o stored
        (subst IsConsistent (sym (Leased-db env.lease_now s.ledger_client client leased)) h)

  ServerEffect-Consistent :
      (accepts : Bool) (line : String) (call : Option Answer) (s s' : Shared) (flow : Flow)
      → ServerEffect accepts line call s (flow, s')
      → Consistent s
      → Consistent s'
  ServerEffect-Consistent accepts line call s s' flow (inl (e, (a, b, c, out))) h =
      subst IsConsistent (sym c) h
  ServerEffect-Consistent accepts line call s s' flow
        (inr (id, n', status, e, (found, gone, child, inl (same, stop)))) h =
      subst IsConsistent (sym same) h
  ServerEffect-Consistent accepts line call s s' flow
        (inr (id, n', status, e, (found, gone, child, inr (terminal, o, stored, rest)))) h =
      Stored-IsConsistent _ n' status s.ledger_client s'.ledger_client o stored h

  client_line-Consistent :
      (env : ClientEnv) (line : String) (s : Shared)
      → Consistent s
      → Consistent (client_line set env line s).1
  client_line-Consistent env line s =
      LineEffect-Consistent env line (call_nonce set line) s (client_line set env line s).1
        (client_line-LineEffect set env line s)

  server_line-Consistent :
      (env : ServerEnv) (line : String) (s : Shared)
      → Consistent s
      → Consistent (server_line set env line s).1
  server_line-Consistent env line s =
      ServerEffect-Consistent env.client_accepts line (answers line s) s
        (server_line set env line s).1 (server_line set env line s).0
        (server_line-ServerEffect set env line s)

  restarted-Consistent : (r : Relay) → Consistent r.shared → Consistent (restarted r).shared
  unfolding restarted
  restarted-Consistent r h = h

  synced-Consistent :
      (env : SyncEnv) (r : Relay) → Consistent r.shared → Consistent (synced env r).shared
  unfolding synced
  synced-Consistent env r (unique, agree) = (
    λ n s.
        rw (rows-sync_queue n s env.readable env.post env.tx r.shared.ledger_client) (unique n s),
    sync_queue-ReceiptsMatch env.readable env.post env.tx r.shared.ledger_client unique agree,
  )

  Step-Consistent : (r r' : Relay) → Step set r r' → Consistent r.shared → Consistent r'.shared
  Step-Consistent r _ (client_step env line o e) h =
      subst Consistent (sym (after_client-shared r (client_line set env line r.shared)))
        (client_line-Consistent env line r.shared h)
  Step-Consistent r _ (server_step env line o e) h =
      subst Consistent (sym (after_server-shared r (server_line set env line r.shared)))
        (server_line-Consistent env line r.shared h)
  Step-Consistent r _ (sync_step env e) h = synced-Consistent env r h
  Step-Consistent r _ restart h = restarted-Consistent r h
  Step-Consistent r _ (client_crash env line) h =
      restarted-Consistent
        (record r {
          shared = record (r.shared) {
            ledger_client = (client_line set env line r.shared).1.ledger_client;
          };
        })
        (client_line-Consistent env line r.shared h)
  Step-Consistent r _ (server_crash env line) h =
      restarted-Consistent
        (record r {
          shared = record (r.shared) {
            ledger_client = (server_line set env line r.shared).1.ledger_client;
          };
        })
        (server_line-Consistent env line r.shared h)

  -- In every state that the relay reaches from an empty database, across crashes and restarts, no
  -- nonce and status occur twice in the log, and the receipts are exactly those of the events that
  -- the log has with a receipt, counted by nonce and status.
  pub log-IsConsistent :
      (client : LedgerClient) (r : Relay)
      → client.db_conn ≡ empty_database
      → Reach set client r
      → IsConsistent r.shared.ledger_client.db_conn
  log-IsConsistent client _ e here = subst IsConsistent (sym e) (λ n s. omega arith, λ n s. refl)
  log-IsConsistent client _ e (next {r} {r'} path step) =
      Step-Consistent r r' step (log-IsConsistent client r e path)
