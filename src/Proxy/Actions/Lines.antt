-- ===== src/Proxy/Actions/Lines.antt =====
-- The rounds of the loop over the client's lines are the runs of its actions.
use autonomous_agent_account.Base.{
  ℕ, suc, ◌-◌, ◌≤◌, String, ◌≡◌, subst, inl, inr, ◌==◌, ◌||◌, arith, Bool-cases, Option-cases,
}
use autonomous_agent_account.External.Json.{Json}
use autonomous_agent_account.External.Crypto.{Crypto}
use autonomous_agent_account.Proxy.Decision.{is_irreversible}
use autonomous_agent_account.Proxy.Request.{is_tool_call, req_id_str, tool_name_str}
use autonomous_agent_account.Proxy.State.{
  Settings, Flow, continue, Shared, say, forward, missing_id_error, batch_error,
}
use autonomous_agent_account.Proxy.Client.{
  ClientEnv, gated_call, client_object, client_value, client_line,
}
use autonomous_agent_account.Proxy.Actions.Client.{
  ClientTask, answering, passing, checking, read_object, read_value, read_line,
}
use autonomous_agent_account.Proxy.Actions.Rounds.{
  client_actions, ended, passing_round, answering_round,
}
use autonomous_agent_account.Proxy.Actions.Gates.{gated_round}

module _ ⦃J : Json⦄ ⦃K : Crypto⦄ where
  open J use {Value, Object, from_str, as_object, is_array, map_get}

  module _ (set : Settings) (env : ClientEnv) (line : String) where
    module _ (req : Object) where
      along :
          (n : ℕ) (s : Shared) (task task' : ClientTask) (r r' : Flow × Shared)
          → task ≡ task'
          → r ≡ r'
          → client_actions n set env task' s ≡ ended r'
          → client_actions n set env task s ≡ ended r
      along n s task task' r r' p q h = rw (p, q) h

      object_round :
          (k : ℕ) (s : Shared)
          → client_actions
              (suc (suc (suc (suc (suc (suc k))))))
              set
              env
              (read_object set line req)
              s
            ≡ ended (client_object set env line req s)
      unfolding read_object client_object gated_call
      object_round k s =
          let step = along (suc (suc (suc (suc (suc (suc k)))))) s (read_object set line req) in
          let object = client_object set env line req s in
          elim (Bool-cases (is_tool_call req)) [
            | inr e ↦
                step (passing line) object (forward env.child_accepts line s) (rw (e, read_object))
                  (rw (e, client_object))
                  (passing_round set env line (suc (suc (suc (suc (suc k))))) s)
            | inl e ↦
                elim (Bool-cases
                  (is_irreversible set.policy_json (tool_name_str req) (map_get req "params"))) [
                    | inr f ↦
                        step (passing line) object (forward env.child_accepts line s)
                          (rw (e, f, read_object)) (rw (e, f, client_object))
                          (passing_round set env line (suc (suc (suc (suc (suc k))))) s)
                    | inl f ↦ elim (Bool-cases (req_id_str req == "" || req_id_str req == "null")) [
                      | inl g ↦
                          step (answering missing_id_error) object
                            (continue, say missing_id_error s) (rw (e, f, g, read_object))
                            (rw (e, f, g, client_object, gated_call))
                            (answering_round set env line (suc (suc (suc (suc (suc k)))))
                              missing_id_error s)
                      | inr g ↦
                          step (checking line req) object (gated_call set env line req s)
                            (rw (e, f, g, read_object)) (rw (e, f, client_object))
                            (gated_round set env line req k s g)
                    ]
                  ]
          ]

    line_round :
        (k : ℕ) (s : Shared)
        → client_actions (suc (suc (suc (suc (suc (suc k)))))) set env (read_line set line) s
          ≡ ended (client_line set env line s)
    unfolding read_line read_value client_line client_value
    line_round k s = elim (Option-cases (from_str line)) [
      | inl e ↦
          rw (e, read_line, client_line)
            (passing_round set env line (suc (suc (suc (suc (suc k))))) s)
      | inr (val, e) ↦ elim (Option-cases (as_object val)) [
        | inr (req, f) ↦
            rw (e, f, read_line, read_value, client_line, client_value) (object_round req k s)
        | inl f ↦ elim (Bool-cases (is_array val)) [
          | inl g ↦
              rw (e, f, g, read_line, read_value, client_line, client_value)
                (answering_round set env line (suc (suc (suc (suc (suc k))))) batch_error s)
          | inr g ↦
              rw (e, f, g, read_line, read_value, client_line, client_value)
                (passing_round set env line (suc (suc (suc (suc (suc k))))) s)
        ]
      ]
    ]

    -- With nothing in between, the actions that follow the read of a line end after six at most, and
    -- leave what one round of the loop leaves.
    pub client_actions-client_line :
        (n : ℕ) (s : Shared)
        → 6 ≤ n
        → client_actions n set env (read_line set line) s ≡ ended (client_line set env line s)
    client_actions-client_line n s enough =
        subst
          (λ (m : ℕ).
            client_actions m set env (read_line set line) s ≡ ended (client_line set env line s))
          (omega arith) (line_round (n - 6) s)
