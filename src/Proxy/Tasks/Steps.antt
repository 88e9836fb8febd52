-- ===== src/Proxy/Tasks/Steps.antt =====
-- What one step of the tasks may do to the child, to the log, and to the events that wait for a
-- reply of the ledger.
use autonomous_agent_account.Base.{
  ◌≡◌, ◌⊎◌, inl, inr, refl, ap, Option, none, some, ◌◇◌, Bool-cases,
}
use autonomous_agent_account.External.Json.{Json}
use autonomous_agent_account.External.Crypto.{Crypto}
use autonomous_agent_account.Ledger.Database.{AuditRow, oldest_unsealed}
use autonomous_agent_account.Ledger.Client.{LedgerClient}
use autonomous_agent_account.Ledger.Sync.{SyncEnv, event_of, seal_body}
use autonomous_agent_account.Ledger.Sync.Outcome.{Received, seal_reply-Received}
use autonomous_agent_account.Proxy.State.{Settings, Shared}
use autonomous_agent_account.Proxy.Actions.Sync.{sync_action}
use autonomous_agent_account.Proxy.Tasks.{
  Tasks, background_acted, final_acted, Step, client_step, server_step, background_step, final_step,
  crash,
}
use autonomous_agent_account.Proxy.Tasks.Writes.{
  same-SameKeys, Wrote, stays, client_action-Wrote, server_action-Wrote,
}

-- An event that a task holds is let go of, or stays.
abbrev pub Holds : Option AuditRow → Option AuditRow → Type 0
Holds held held' = (held' ≡ none) ⊎ (held' ≡ held)

module _ ⦃J : Json⦄ ⦃K : Crypto⦄ where
  -- An action of a synchronisation selects the oldest event without a receipt, or receives a
  -- receipt for the event that it holds, or does nothing.
  abbrev pub SyncEffect : Option AuditRow → LedgerClient → Option AuditRow × LedgerClient → Type 0
  SyncEffect held client (held', client') =
      ((held' ≡ none) × (client' ≡ client))
      ⊎ ((row : AuditRow) × (oldest_unsealed client.db_conn.local_audit_log ≡ some row)
          × (held' ≡ some row)
          × (client' ≡ client))
      ⊎ ((row : AuditRow) × (held ≡ some row) × (held' ≡ none) × Received row client client')

  selected-SyncEffect :
      (client : LedgerClient) (o : Option AuditRow)
      → oldest_unsealed client.db_conn.local_audit_log ≡ o
      → SyncEffect none client (o, client)
  selected-SyncEffect client none e = inl (refl, refl)
  selected-SyncEffect client (some row) e = inr (inl (row, e, refl, refl))

  pub sync_action-SyncEffect :
      (env : SyncEnv) (held : Option AuditRow) (client : LedgerClient)
      → SyncEffect held client (sync_action env held client)
  unfolding sync_action
  sync_action-SyncEffect env none client = elim (Bool-cases env.readable) [
    | inl e ↦
        rw e (selected-SyncEffect client (oldest_unsealed client.db_conn.local_audit_log) refl)
    | inr e ↦ rw e (inl (refl, refl))
  ]
  sync_action-SyncEffect env (some row) client = inr (
      inr (
        row,
        refl,
        refl,
        seal_reply-Received row client env.tx
            (env.post (client.ledger_url ◇ "/seal") (seal_body (event_of row))),
      ))

  pub data Effect (t t' : Tasks) : Type 0 where
    writes :
        Wrote t.shared t'.shared
        → Holds t.background t'.background
        → Holds t.final t'.final
        → Effect t t'
    selects :
        (row : AuditRow)
        → t'.shared ≡ t.shared
        → oldest_unsealed t.shared.ledger_client.db_conn.local_audit_log ≡ some row
        → Holds t.background t'.background ⊎ (t'.background ≡ some row)
        → Holds t.final t'.final ⊎ (t'.final ≡ some row)
        → Effect t t'
    receives :
        (row : AuditRow)
        → (t.background ≡ some row) ⊎ (t.final ≡ some row)
        → t'.shared.child_stdin ≡ t.shared.child_stdin
        → Received row t.shared.ledger_client t'.shared.ledger_client
        → Holds t.background t'.background
        → Holds t.final t'.final
        → Effect t t'

  same_client-Wrote :
      (s : Shared) (client : LedgerClient)
      → client ≡ s.ledger_client
      → Wrote s (record s { ledger_client = client })
  same_client-Wrote s client e =
      stays refl (ap (λ (c : LedgerClient). c.db_conn) e) (same-SameKeys s.ledger_client client e)

  background-Effect :
      (t : Tasks) (r : Option AuditRow × LedgerClient)
      → SyncEffect t.background t.shared.ledger_client r
      → Effect t (background_acted t r)
  background-Effect t (held', client') (inl (gone, same)) =
      Effect.writes (same_client-Wrote t.shared client' same) (inl gone) (inr refl)
  background-Effect t (held', client') (inr (inl (row, found, taken, same))) =
      Effect.selects row (ap (λ c. record (t.shared) { ledger_client = c }) same) found (inr taken)
        (inl (inr refl))
  background-Effect t (held', client') (inr (inr (row, held, gone, received))) =
      Effect.receives row (inl held) refl received (inl gone) (inr refl)

  final-Effect :
      (t : Tasks) (r : Option AuditRow × LedgerClient)
      → SyncEffect t.final t.shared.ledger_client r
      → Effect t (final_acted t r)
  final-Effect t (held', client') (inl (gone, same)) =
      Effect.writes (same_client-Wrote t.shared client' same) (inr refl) (inl gone)
  final-Effect t (held', client') (inr (inl (row, found, taken, same))) =
      Effect.selects row (ap (λ c. record (t.shared) { ledger_client = c }) same) found
        (inl (inr refl)) (inr taken)
  final-Effect t (held', client') (inr (inr (row, held, gone, received))) =
      Effect.receives row (inr held) refl received (inr refl) (inl gone)

  pub Step-Effect : (set : Settings) (t t' : Tasks) → Step set t t' → Effect t t'
  Step-Effect set t _ (client_step env input e) =
      Effect.writes (client_action-Wrote set env input t.client t.shared) (inr refl) (inr refl)
  Step-Effect set t _ (server_step env input e) =
      Effect.writes (server_action-Wrote set env input t.server t.shared) (inr refl) (inr refl)
  Step-Effect set t _ (background_step env e) =
      background-Effect t (sync_action env t.background t.shared.ledger_client)
        (sync_action-SyncEffect env t.background t.shared.ledger_client)
  Step-Effect set t _ (final_step env e) =
      final-Effect t (sync_action env t.final t.shared.ledger_client)
        (sync_action-SyncEffect env t.final t.shared.ledger_client)
  Step-Effect set t _ crash =
      Effect.writes (stays refl refl (refl, refl, refl)) (inl refl) (inl refl)
