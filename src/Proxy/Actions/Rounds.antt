-- ===== src/Proxy/Actions/Rounds.antt =====
-- The actions of one task up to its next line, and the last of them.
use autonomous_agent_account.Base.{
  ℕ, zero, suc, String, ◌≡◌, inl, inr, refl, Bool, true, false, none, some, insert, arith,
  Option-cases,
}
use autonomous_agent_account.External.Json.{Json}
use autonomous_agent_account.External.Crypto.{Crypto}
use autonomous_agent_account.Proxy.Request.{req_id_str, stable_nonce}
use autonomous_agent_account.Proxy.State.{
  Settings, Flow, continue, break, panic, exit, Shared, say, forward, denied_error,
}
use autonomous_agent_account.Proxy.Client.{ClientEnv, deny}
use autonomous_agent_account.Proxy.Actions.Client.{
  Acted, ClientTask, reading, answering, passing, filing, closed, refusing, client_action,
}

module _ ⦃J : Json⦄ ⦃K : Crypto⦄ where
  open J use {Value, Object, from_str, as_object, is_array, map_get}

  -- The task waits for a line, or has ended.
  abbrev pub is_resting : ClientTask → Bool
  is_resting reading = true
  is_resting closed = true
  is_resting _ = false

  -- What follows an action, unless it ended the process.
  abbrev pub proceed : {T : Type 0} → (T → Shared → Acted T) → Acted T → Acted T
  proceed next (task, s, some code) = (task, s, some code)
  proceed next (task, s, none) = next task s

  -- The actions of one task up to its next line, with a bound on their number.
  unfoldable pub client_actions : ℕ → Settings → ClientEnv → ClientTask → Shared → Acted ClientTask
  unfolding client_action
  client_actions zero set env task s = (task, s, none)
  client_actions (suc n) set env task s = elim (is_resting task) [
    | true ↦ (task, s, none)
    | false ↦ proceed (client_actions n set env) (client_action set env "" task s)
  ]

  -- The end of a round, as the task is left.
  abbrev pub ended : Flow × Shared → Acted ClientTask
  ended (continue, s) = (reading, s, none)
  ended (break, s) = (closed, s, none)
  ended (panic, s) = (closed, s, none)
  ended (exit code, s) = (closed, s, some code)

  module _ (set : Settings) (env : ClientEnv) (line : String) where
    pub closed_round : (k : ℕ) (s : Shared) → client_actions k set env closed s ≡ (closed, s, none)
    unfolding client_actions
    closed_round zero s = refl
    closed_round (suc k) s = refl

    pub passing_round :
        (k : ℕ) (s : Shared)
        → client_actions (suc k) set env (passing line) s ≡ ended (forward env.child_accepts line s)
    unfolding client_actions
    passing_round zero s = ground arith
    passing_round (suc k) s = ground arith

    pub answering_round :
        (k : ℕ) (text : String) (s : Shared)
        → client_actions (suc k) set env (answering text) s ≡ (reading, say text s, none)
    unfolding client_actions
    answering_round zero text s = refl
    answering_round (suc k) text s = refl

    pub refusing_round :
        (k : ℕ) (req : Object) (e : String) (s : Shared)
        → client_actions (suc k) set env (refusing req e) s ≡ ended (deny req e s)
    unfolding deny client_actions
    refusing_round k req e s = elim (Option-cases (map_get req "id")) [
      | inl h ↦ rw (h, deny, refusing) refl
      | inr (id, h) ↦ rw (h, deny, refusing) (answering_round k (denied_error id e) s)
    ]

    pub filing_round :
        (k : ℕ) (req : Object) (s : Shared)
        → client_actions (suc (suc k)) set env (filing line req) s
          ≡ ended (
              forward env.child_accepts line (record s {
                pending_calls =
                    insert (req_id_str req) (stable_nonce set.device_id req) s.pending_calls;
              }))
    unfolding client_actions
    filing_round k req s = passing_round k (record s {
      pending_calls = insert (req_id_str req) (stable_nonce set.device_id req) s.pending_calls;
    })
