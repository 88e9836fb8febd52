-- ===== src/Proxy/Client/Gate.antt =====
-- Which lines from the client reach the child.
use autonomous_agent_account.Base.{
  ◌≤◌, String, ◌≡◌, inl, inr, refl, sym, ◌∙◌, ap, true, false, none, some, [], ◌∷◌, ◌++◌, arith,
  Bool-cases, Option-cases,
}
use autonomous_agent_account.External.Json.{Json}
use autonomous_agent_account.External.Crypto.{Crypto}
use autonomous_agent_account.Ledger.Database.Keys.{rows, rows-insert_event}
use autonomous_agent_account.Ledger.Database.{Database}
use autonomous_agent_account.Ledger.Lease.Grants.{Leased-db}
use autonomous_agent_account.Proxy.Decision.{is_irreversible}
use autonomous_agent_account.Proxy.Request.{is_tool_call, tool_name_str}
use autonomous_agent_account.Proxy.State.{Settings, continue, Shared}
use autonomous_agent_account.Proxy.Client.{ClientEnv, client_object, client_value, client_line}
use autonomous_agent_account.Proxy.Client.Effect.{
  needs_ledger, object_nonce, call_nonce, Refused, LineEffect, client_line-LineEffect,
}

module _ ⦃J : Json⦄ ⦃K : Crypto⦄ (set : Settings) (env : ClientEnv) (line : String) where
  open J use {Value, Object, from_str, as_object, is_array, map_get}

  needs_ledger-no_nonce :
      (req : Object) → object_nonce set req ≡ none → needs_ledger set req ≡ false
  needs_ledger-no_nonce req h = ground arith

  module _ (s : Shared) where
    passed_object :
        (req : Object)
        → needs_ledger set req ≡ false
        → env.child_accepts ≡ true
        → client_object set env line req s
          ≡ (continue, record s { child_stdin = s.child_stdin ++ line ∷ [] })
    unfolding client_object
    passed_object req h accepts = elim (Bool-cases (is_tool_call req)) [
      | inl e ↦
          let f : is_irreversible set.policy_json (tool_name_str req) (map_get req "params")
              ≡ false =
            ground arith in
          rw (e, f, accepts, client_object) refl
      | inr e ↦ rw (e, accepts, client_object) refl
    ]

    -- A line that is no tool call under the ledger, and no batch, reaches the child as it is, and
    -- nothing else changes, if the child takes it.
    pub passed_line :
        call_nonce set line ≡ none
        → ((v : Value) → from_str line ≡ some v → is_array v ≡ false)
        → env.child_accepts ≡ true
        → client_line set env line s
          ≡ (continue, record s { child_stdin = s.child_stdin ++ line ∷ [] })
    unfolding call_nonce client_line client_value
    passed_line no_call no_batch accepts = elim (Option-cases (from_str line)) [
      | inl e ↦ rw (e, accepts, client_line) refl
      | inr (val, e) ↦ elim (Option-cases (as_object val)) [
        | inl f ↦ rw (e, f, no_batch val e, accepts, client_line, client_value) refl
        | inr (req, f) ↦
            rw (e, f, client_line, client_value)
              (passed_object req (needs_ledger-no_nonce req (rw (e, f, call_nonce) at no_call))
                accepts)
      ]
    ]

    -- A tool call whose nonce the log has as requested does not reach the child, and stores nothing,
    -- also when the database cannot be read.
    pub replay-Refused :
        (nonce : String)
        → call_nonce set line ≡ some nonce
        → 1 ≤ rows nonce "SEAL_REQUESTED" s.ledger_client.db_conn
        → Refused s (client_line set env line s).1
    replay-Refused nonce call known =
        go (client_line set env line s).1 (client_line-LineEffect set env line s)
      where
        go : (s' : Shared) → LineEffect env line (call_nonce set line) s s' → Refused s s'
        go s' (inl refused) = refused
        go s' (inr (inl (same, e))) = let never : some nonce ≡ none = sym call ∙ e in cc
        go s'
              (inr (
                inr (
                  n,
                  e,
                  (
                    client,
                    o,
                    id,
                    leased,
                    (row, hn, hs, fresh, signed, added, rest, ends),
                    flight,
                    sent,
                  ),
                ))) =
            let same : some n ≡ some nonce = sym e ∙ call in
            let row_nonce : row.nonce ≡ nonce = cc in
            let free =
              (rows-insert_event nonce "SEAL_REQUESTED" row client.db_conn s'.ledger_client.db_conn
                added.0).0 in
            let zero_rows : rows nonce "SEAL_REQUESTED" s.ledger_client.db_conn ≡ 0 =
              ap (λ (d : Database). rows nonce "SEAL_REQUESTED" d)
                (sym (Leased-db env.lease_now s.ledger_client client leased))
              ∙ (rw (row_nonce, hs) at free) in
            absurd (omega (arith, known, zero_rows))
