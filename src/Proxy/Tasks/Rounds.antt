-- ===== src/Proxy/Tasks/Rounds.antt =====
-- A round of a loop is a run of the tasks in which no other task moves.
use autonomous_agent_account.Base.{
  ℕ, zero, suc, String, ◌≡◌, sym, subst, refl, inl, inr, Option, none, some, arith, Bool-cases,
}
use autonomous_agent_account.External.Json.{Json}
use autonomous_agent_account.External.Crypto.{Crypto}
use autonomous_agent_account.Ledger.Client.{LedgerClient}
use autonomous_agent_account.Ledger.Database.{AuditRow}
use autonomous_agent_account.Ledger.Sync.{SyncEnv, sync_queue}
use autonomous_agent_account.Proxy.State.{Settings}
use autonomous_agent_account.Proxy.Client.{ClientEnv, client_line}
use autonomous_agent_account.Proxy.Server.{ServerEnv, server_line}
use autonomous_agent_account.Proxy.Actions.Client.{Acted, ClientTask, read_line, client_action}
use autonomous_agent_account.Proxy.Actions.Server.{ServerTask, read_answer, server_action}
use autonomous_agent_account.Proxy.Actions.Rounds.{is_resting, proceed, client_actions, ended}
use autonomous_agent_account.Proxy.Actions.Lines.{client_actions-client_line}
use autonomous_agent_account.Proxy.Actions.Answers
use autonomous_agent_account.Proxy.Actions.Sync.{sync_action}
use autonomous_agent_account.Proxy.Actions.Queue.{sync_actions, sync_actions-sync_queue}
use autonomous_agent_account.Proxy.Tasks.{
  Tasks, client_acted, server_acted, background_acted, Step, client_step, server_step,
  background_step,
}

module _ ⦃J : Json⦄ ⦃K : Crypto⦄ (set : Settings) where
  -- Any number of steps.
  pub data Run : Tasks → Tasks → Type 0 where
    still : {t : Tasks} → Run t t
    more : {t t' t'' : Tasks} → Step set t t' → Run t' t'' → Run t t''

  proceed-Run :
      (n : ℕ) (env : ClientEnv) (t : Tasks) (a : Acted ClientTask)
      → ((t' : Tasks)
          → t'.exit_code ≡ none
          → Run t' (client_acted t' (client_actions n set env t'.client t'.shared)))
      → Run (client_acted t a) (client_acted t (proceed (client_actions n set env) a))
  proceed-Run n env t (task, s, some code) next = still
  proceed-Run n env t (task, s, none) next = next (client_acted t (task, s, none)) refl

  client-Run :
      (n : ℕ) (env : ClientEnv) (t : Tasks)
      → t.exit_code ≡ none
      → Run t (client_acted t (client_actions n set env t.client t.shared))
  unfolding client_actions
  client-Run zero env t runs =
      subst (λ (o : Option ℕ). Run t (record t { exit_code = o })) runs still
  client-Run (suc n) env t runs = elim (Bool-cases (is_resting t.client)) [
    | inl e ↦
        rw (e, client_actions)
          (subst (λ (o : Option ℕ). Run t (record t { exit_code = o })) runs still)
    | inr e ↦
        rw (e, client_actions)
          (more (client_step env "" runs)
            (proceed-Run n env t (client_action set env "" t.client t.shared) (client-Run n env)))
  ]

  server_proceed-Run :
      (n : ℕ) (env : ServerEnv) (t : Tasks) (a : Acted ServerTask)
      → ((t' : Tasks)
          → t'.exit_code ≡ none
          → Run t' (server_acted t' (Answers.server_actions n set env t'.server t'.shared)))
      → Run (server_acted t a) (server_acted t (proceed (Answers.server_actions n set env) a))
  server_proceed-Run n env t (task, s, some code) next = still
  server_proceed-Run n env t (task, s, none) next = next (server_acted t (task, s, none)) refl

  server-Run :
      (n : ℕ) (env : ServerEnv) (t : Tasks)
      → t.exit_code ≡ none
      → Run t (server_acted t (Answers.server_actions n set env t.server t.shared))
  unfolding Answers.server_actions
  server-Run zero env t runs =
      subst (λ (o : Option ℕ). Run t (record t { exit_code = o })) runs still
  server-Run (suc n) env t runs = elim (Bool-cases (Answers.is_resting t.server)) [
    | inl e ↦
        rw (e, Answers.server_actions)
          (subst (λ (o : Option ℕ). Run t (record t { exit_code = o })) runs still)
    | inr e ↦
        rw (e, Answers.server_actions)
          (more (server_step env "" runs) (
            server_proceed-Run n env t (server_action set env "" t.server t.shared)
              (server-Run n env)))
  ]

  module _ (t : Tasks) (runs : t.exit_code ≡ none) where
    client_round-Run :
        (env : ClientEnv) (line : String)
        → t.client ≡ ClientTask.reading
        → Run t (client_acted t (ended (client_line set env line t.shared)))
    unfolding client_action
    client_round-Run env line e =
        let read : client_action set env line t.client t.shared
            ≡ (read_line set line, t.shared, none) =
          rw e refl in
        more
          (subst (λ (a : Acted ClientTask). Step set t (client_acted t a)) read
            (client_step env line runs))
          (subst
            (λ (a : Acted ClientTask).
              Run (client_acted t (read_line set line, t.shared, none)) (client_acted t a))
            (client_actions-client_line set env line 6 t.shared (omega arith))
            (client-Run 6 env (client_acted t (read_line set line, t.shared, none)) refl))

    server_round-Run :
        (env : ServerEnv) (line : String)
        → t.server ≡ ServerTask.reading
        → Run t (server_acted t (Answers.ended (server_line set env line t.shared)))
    unfolding server_action
    server_round-Run env line e =
        let read : server_action set env line t.server t.shared
            ≡ (read_answer line, t.shared, none) =
          rw e refl in
        more
          (subst (λ (a : Acted ServerTask). Step set t (server_acted t a)) read
            (server_step env line runs))
          (subst
            (λ (a : Acted ServerTask).
              Run (server_acted t (read_answer line, t.shared, none)) (server_acted t a))
            (Answers.server_actions-server_line set env line 3 t.shared (omega arith))
            (server-Run 3 env (server_acted t (read_answer line, t.shared, none)) refl))

    sync_round-Run :
        (env : SyncEnv)
        → t.background ≡ none
        → Run t (
            background_acted t
              (none, sync_queue env.readable env.post env.tx t.shared.ledger_client))
    unfolding sync_actions
    sync_round-Run env e =
        let client = t.shared.ledger_client in
        let first = sync_action env none client in
        more
          (subst
            (λ (o : Option AuditRow). Step set t (background_acted t (sync_action env o client))) e
            (background_step env runs))
          (more (background_step env runs) (
            subst
              (λ (r : Option AuditRow × LedgerClient).
                Run (background_acted t r)
                  (background_acted t (none, sync_queue env.readable env.post env.tx client)))
              (sym (sync_actions-sync_queue env client)) still))

  -- From a state in which the process runs and its tasks wait, the interleaved tasks can do what the
  -- coarser machine does in a step: a round of parent_to_child, a round of child_to_parent, and a
  -- call of sync_queue are each a run of theirs, to the very state that it leaves.
  pub rounds-Run :
      (t : Tasks) (client : ClientEnv) (server : ServerEnv) (sync : SyncEnv) (line answer : String)
      → t.exit_code ≡ none
      → t.client ≡ ClientTask.reading
      → t.server ≡ ServerTask.reading
      → t.background ≡ none
      → Run t (client_acted t (ended (client_line set client line t.shared)))
        × Run t (server_acted t (Answers.ended (server_line set server answer t.shared)))
        × Run t (
            background_acted t
              (none, sync_queue sync.readable sync.post sync.tx t.shared.ledger_client))
  rounds-Run t client server sync line answer runs c s b = (
    client_round-Run t runs client line c,
    server_round-Run t runs server answer s,
    sync_round-Run t runs sync b,
  )
