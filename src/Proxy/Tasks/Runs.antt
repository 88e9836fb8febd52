-- ===== src/Proxy/Tasks/Runs.antt =====
-- What holds of every state that the tasks reach, over any lines, replies, failures, interleavings,
-- crashes and new starts.
use autonomous_agent_account.Base.{◌+◌, ◌≤◌, String, ◌≡◌, inl, inr, ap, Option, arith}
use autonomous_agent_account.External.Json.{Json}
use autonomous_agent_account.External.Crypto.{Crypto}
use autonomous_agent_account.Ledger.Database.{AuditRow, empty_database}
use autonomous_agent_account.Ledger.Database.Keys.{rows}
use autonomous_agent_account.Ledger.Client.{LedgerClient}
use autonomous_agent_account.Ledger.Sync.{SyncEnv}
use autonomous_agent_account.Ledger.Sync.Outcome.{rows-Received}
use autonomous_agent_account.Proxy.State.{Settings}
use autonomous_agent_account.Proxy.Actions.Sync.{sync_action}
use autonomous_agent_account.Proxy.Relay.Account.{calls}
use autonomous_agent_account.Proxy.Tasks.{
  Tasks, Step, client_step, server_step, background_step, final_step, crash, Reach, here, next,
}
use autonomous_agent_account.Proxy.Tasks.Account.{
  IsAccounted, started-IsAccounted, synced-IsAccounted,
}
use autonomous_agent_account.Proxy.Tasks.Moves.{IsGated, to_send, to_file, client_action-Kept}
use autonomous_agent_account.Proxy.Tasks.Seals.{to_seal, server_action-Kept}
use autonomous_agent_account.Proxy.Tasks.Steps.{SyncEffect, sync_action-SyncEffect}

module _ ⦃J : Json⦄ ⦃K : Crypto⦄ (set : Settings) (nonce : String) where
  abbrev pub Accounted : Tasks → Type 0
  Accounted t =
      IsGated set t.client
      × IsAccounted set nonce t.shared.child_stdin t.shared.pending_calls
          t.shared.ledger_client.db_conn (to_send set nonce t.client) (to_file set nonce t.client)
          (to_seal set nonce t.server)

  -- A synchronisation keeps every key of the log.
  SyncEffect-rows :
      (held : Option AuditRow) (client : LedgerClient) (r : Option AuditRow × LedgerClient)
      → SyncEffect held client r
      → (status : String) → rows nonce status r.1.db_conn ≡ rows nonce status client.db_conn
  SyncEffect-rows held client (held', client') (inl (gone, same)) status =
      ap (λ (c : LedgerClient). rows nonce status c.db_conn) same
  SyncEffect-rows held client (held', client') (inr (inl (row, found, taken, same))) status =
      ap (λ (c : LedgerClient). rows nonce status c.db_conn) same
  SyncEffect-rows held client (held', client') (inr (inr (row, e, gone, received))) status =
      rows-Received nonce status row client client' received

  sync-Accounted :
      (t : Tasks) (env : SyncEnv) (held : Option AuditRow)
      → Accounted t
      → Accounted (record t {
        shared = record (t.shared) {
          ledger_client = (sync_action env held t.shared.ledger_client).1;
        };
      })
  sync-Accounted t env held (g, h) = (
    g,
    synced-IsAccounted set nonce t.shared.child_stdin t.shared.pending_calls
        t.shared.ledger_client.db_conn _ _ _ _
        (SyncEffect-rows held t.shared.ledger_client (sync_action env held t.shared.ledger_client)
          (sync_action-SyncEffect env held t.shared.ledger_client))
        h,
  )

  pub Step-Accounted : (t t' : Tasks) → Step set t t' → Accounted t → Accounted t'
  Step-Accounted t _ (client_step env input e) h =
      client_action-Kept set nonce (to_seal set nonce t.server) env input t.client t.shared h
  Step-Accounted t _ (server_step env input e) (g, h) = (
    g,
    server_action-Kept set nonce (to_send set nonce t.client) (to_file set nonce t.client) env input
        t.server t.shared h,
  )
  Step-Accounted t _ (background_step env e) h = sync-Accounted t env t.background h
  Step-Accounted t _ (final_step env e) h = sync-Accounted t env t.final h
  Step-Accounted t _ crash (g, h) = (
    tt,
    started-IsAccounted set nonce t.shared.child_stdin t.shared.pending_calls
        t.shared.ledger_client.db_conn _ _ _ h,
  )

  pub Reach-Accounted :
      (client : LedgerClient) (t : Tasks)
      → client.db_conn ≡ empty_database
      → Reach set client t
      → Accounted t
  Reach-Accounted client _ e here =
      (tt, rw e (record { sent = omega arith; once = omega arith; ended = omega arith }))
  Reach-Accounted client _ e (next {t} {t'} path step) =
      Step-Accounted t t' step (Reach-Accounted client t e path)

  module _ (client : LedgerClient) (t : Tasks) (fresh : client.db_conn ≡ empty_database)
      (path : Reach set client t) where
    -- From an empty database, however the two loops and the two synchronisations are interleaved at
    -- their shared accesses, whatever lines come and whatever the ledger, SQLite and the writes do,
    -- and across any number of crashes at any point, at most one line that is a tool call under a
    -- given nonce is sent to a child, over all the runs together.
    pub sent_once : calls set nonce t.shared.child_stdin ≤ 1
    sent_once = let (g, h) = Reach-Accounted client t fresh path in omega (arith, h.sent, h.once)

    -- In every state that the interleaved tasks reach from an empty database, a tool call that a
    -- child has been sent under a nonce stands in the local log as requested, exactly once.
    pub sent_recorded :
        1 ≤ calls set nonce t.shared.child_stdin
        → rows nonce "SEAL_REQUESTED" t.shared.ledger_client.db_conn ≡ 1
    sent_recorded sent =
        let (g, h) = Reach-Accounted client t fresh path in omega (arith, sent, h.sent, h.once)

    -- In every state that the interleaved tasks reach from an empty database, the ends that the log
    -- has for a nonce, failed or completed, are at most one, and there is one only if the request is
    -- in the log.
    pub sealed_once :
        let db = t.shared.ledger_client.db_conn in
        (rows nonce "SEAL_FAILED" db + rows nonce "SEAL_COMPLETED" db
          ≤ rows nonce "SEAL_REQUESTED" db)
        × (rows nonce "SEAL_REQUESTED" db ≤ 1)
    sealed_once =
        let (g, h) = Reach-Accounted client t fresh path in (omega (arith, h.ended), h.once)
