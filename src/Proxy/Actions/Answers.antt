-- ===== src/Proxy/Actions/Answers.antt =====
-- The rounds of the loop over the child's lines are the runs of its actions.
use autonomous_agent_account.Base.{
  ℕ, zero, suc, ◌-◌, ◌≤◌, String, ◌≡◌, ◌∙◌, sym, ap, subst, inl, inr, refl, Bool, true, false,
  Option, none, some, and_then, lookup, remove, trim_end, arith, Outcome, done, failed, panicked,
  exited, Bool-cases, Option-cases,
}
use autonomous_agent_account.External.Json.{Json}
use autonomous_agent_account.External.Crypto.{Crypto}
use autonomous_agent_account.Ledger.Client.{LedgerClient}
use autonomous_agent_account.Ledger.Event.{insert_local_event}
use autonomous_agent_account.Proxy.State.{Settings, Flow, continue, break, panic, exit, Shared}
use autonomous_agent_account.Proxy.Server.{
  ServerEnv, pass_on, terminal_status, after_seal, seal_response, response_id, server_object,
  server_line,
}
use autonomous_agent_account.Proxy.Actions.Client.{Acted}
use autonomous_agent_account.Proxy.Actions.Rounds.{proceed}
use autonomous_agent_account.Proxy.Actions.Server.{
  ServerTask, reading, matching, sealing, relaying, closed, answer_object, read_answer,
  after_sealing, take_call, server_action,
}

module _ ⦃J : Json⦄ ⦃K : Crypto⦄ where
  open J use {Object, from_str, as_object}

  abbrev pub is_resting : ServerTask → Bool
  is_resting reading = true
  is_resting closed = true
  is_resting _ = false

  unfoldable pub server_actions : ℕ → Settings → ServerEnv → ServerTask → Shared → Acted ServerTask
  unfolding server_action
  server_actions zero set env task s = (task, s, none)
  server_actions (suc n) set env task s = elim (is_resting task) [
    | true ↦ (task, s, none)
    | false ↦ proceed (server_actions n set env) (server_action set env "" task s)
  ]

  abbrev pub ended : Flow × Shared → Acted ServerTask
  ended (continue, s) = (reading, s, none)
  ended (break, s) = (closed, s, none)
  ended (panic, s) = (closed, s, none)
  ended (exit code, s) = (closed, s, some code)

  module _ (set : Settings) (env : ServerEnv) (line : String) where
    relaying_round :
        (k : ℕ) (s : Shared)
        → server_actions (suc k) set env (relaying line) s
          ≡ ended (pass_on env.client_accepts line s)
    unfolding server_actions
    relaying_round zero s = ground arith
    relaying_round (suc k) s = ground arith

    closed_round : (k : ℕ) (s : Shared) → server_actions k set env closed s ≡ (closed, s, none)
    unfolding server_actions
    closed_round zero s = refl
    closed_round (suc k) s = refl

    after_sealing_round :
        (k : ℕ) (o : Outcome String String) (client : LedgerClient) (s : Shared)
        → proceed (server_actions (suc k) set env) (after_sealing line (o, client) s)
          ≡ ended (after_seal env line o (record s { ledger_client = client }))
    unfolding after_seal
    after_sealing_round k (done n) client s = relaying_round k (record s { ledger_client = client })
    after_sealing_round k (failed e) client s = refl
    after_sealing_round k panicked client s =
        closed_round (suc k) (record s { ledger_client = client })
    after_sealing_round k (exited code) client s = refl

    along :
        (k : ℕ) (s : Shared) (task task' : ServerTask) (r r' : Flow × Shared)
        → task ≡ task'
        → r ≡ r'
        → server_actions (suc (suc (suc k))) set env task' s ≡ ended r'
        → server_actions (suc (suc (suc k))) set env task s ≡ ended r
    along k s task task' r r' p q h = rw (p, q) h

    module _ (res : Object) where
      sealing_round :
          (k : ℕ) (nonce : String) (s : Shared)
          → server_actions (suc (suc k)) set env (sealing line res nonce) s
            ≡ ended (seal_response set env line res nonce s)
      unfolding server_actions seal_response
      sealing_round k nonce s = elim (Bool-cases set.crash_after_execution) [
        | inl e ↦ rw (e, server_actions, seal_response) refl
        | inr e ↦
            let stored =
              insert_local_event env.event (trim_end line) (terminal_status res) (some nonce)
                s.ledger_client in
            rw (e, server_actions, seal_response) (after_sealing_round k stored.0 stored.1 s)
      ]

      matching_step :
          (n : ℕ) (id : String) (found : Option String) (s : Shared)
          → lookup id s.pending_calls ≡ found
          → server_actions (suc n) set env (matching line res id) s
            ≡ proceed (server_actions n set env) (take_call line res id found s)
      unfolding server_actions
      matching_step n id found s h =
          ap (λ o. proceed (server_actions n set env) (take_call line res id o s)) h

      matching_round :
          (k : ℕ) (id : String) (s : Shared)
          → response_id res ≡ some id
          → server_actions (suc (suc (suc k))) set env (matching line res id) s
            ≡ ended (server_object set env line res s)
      unfolding server_object
      matching_round k id s h = elim (Option-cases (lookup id s.pending_calls)) [
        | inl e ↦
            matching_step (suc (suc k)) id none s e
            ∙ relaying_round (suc k) s
            ∙ ap ended (sym (passed e))
        | inr (nonce, e) ↦
            matching_step (suc (suc k)) id (some nonce) s e
            ∙ sealing_round k nonce (record s { pending_calls = remove id s.pending_calls })
            ∙ ap ended (sym (sealed nonce e))
      ]
        where
          passed :
              lookup id s.pending_calls ≡ none
              → server_object set env line res s ≡ pass_on env.client_accepts line s
          passed e = rw (h, e, server_object) refl

          sealed :
              (nonce : String)
              → lookup id s.pending_calls ≡ some nonce
              → server_object set env line res s
                ≡ seal_response set env line res nonce
                    (record s { pending_calls = remove id s.pending_calls })
          sealed nonce e = rw (h, e, server_object) refl

      object_round :
          (k : ℕ) (s : Shared)
          → server_actions (suc (suc (suc k))) set env (answer_object line res) s
            ≡ ended (server_object set env line res s)
      unfolding answer_object server_object
      object_round k s = elim (Option-cases (response_id res)) [
        | inl e ↦
            along k s (answer_object line res) (relaying line) (server_object set env line res s)
              (pass_on env.client_accepts line s) (rw (e, answer_object)) (rw (e, server_object))
              (relaying_round (suc (suc k)) s)
        | inr (id, e) ↦
            along k s (answer_object line res) (matching line res id)
              (server_object set env line res s) (server_object set env line res s)
              (rw (e, answer_object)) refl (matching_round k id s e)
      ]

    -- With nothing in between, the actions that follow the read of an answer end after three at
    -- most, and leave what one round of the loop leaves.
    pub server_actions-server_line :
        (n : ℕ) (s : Shared)
        → 3 ≤ n
        → server_actions n set env (read_answer line) s ≡ ended (server_line set env line s)
    unfolding read_answer server_line
    server_actions-server_line n s enough =
        subst
          (λ (m : ℕ).
            server_actions m set env (read_answer line) s ≡ ended (server_line set env line s))
          (omega arith)
          (elim (Option-cases (and_then (from_str line) as_object)) [
            | inl e ↦
                along (n - 3) s (read_answer line) (relaying line) (server_line set env line s)
                  (pass_on env.client_accepts line s) (rw (e, read_answer)) (rw (e, server_line))
                  (relaying_round (suc (suc (n - 3))) s)
            | inr (res, e) ↦
                along (n - 3) s (read_answer line) (answer_object line res)
                  (server_line set env line s) (server_object set env line res s)
                  (rw (e, read_answer)) (rw (e, server_line)) (object_round res (n - 3) s)
          ])
