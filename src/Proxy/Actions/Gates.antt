-- ===== src/Proxy/Actions/Gates.antt =====
-- The accesses of a call that goes through the ledger, one after the other.
use autonomous_agent_account.Base.{
  ℕ, suc, String, ◌≡◌, ◌∙◌, sym, ap, inl, inr, refl, false, some, ◌==◌, ◌||◌, is_some, lookup,
  trim_end, Result, ok, err, Outcome, done, failed, panicked, exited, Bool-cases,
}
use autonomous_agent_account.External.Json.{Json}
use autonomous_agent_account.External.Crypto.{Crypto}
use autonomous_agent_account.Ledger.Client.{LedgerClient}
use autonomous_agent_account.Ledger.Lease.{has_nonce, ensure_lease}
use autonomous_agent_account.Ledger.Event.{insert_local_event}
use autonomous_agent_account.Proxy.Request.{req_id_str, stable_nonce}
use autonomous_agent_account.Proxy.State.{Settings, Shared}
use autonomous_agent_account.Proxy.Client.{
  ClientEnv, deny, after_insert, record_call, lease_call, gated_call,
}
use autonomous_agent_account.Proxy.Actions.Client.{
  checking, looking, leasing, storing, after_lease, after_store,
}
use autonomous_agent_account.Proxy.Actions.Rounds.{
  proceed, client_actions, ended, closed_round, refusing_round, filing_round,
}

module _ ⦃J : Json⦄ ⦃K : Crypto⦄ where
  open J use {Value, Object, from_str, as_object, is_array, map_get}

  module _ (set : Settings) (env : ClientEnv) (line : String) where
    module _ (req : Object) where
      abbrev nonce : String
      nonce = stable_nonce set.device_id req

      after_store_round :
          (k : ℕ) (o : Outcome String String) (client : LedgerClient) (s : Shared)
          → proceed (client_actions (suc (suc k)) set env) (after_store line req (o, client) s)
            ≡ ended (after_insert env line req nonce o (record s { ledger_client = client }))
      unfolding after_insert
      after_store_round k (done n) client s =
          filing_round set env line k req (record s { ledger_client = client })
      after_store_round k (failed e) client s =
          refusing_round set env line (suc k) req e (record s { ledger_client = client })
      after_store_round k panicked client s =
          closed_round set env line (suc (suc k)) (record s { ledger_client = client })
      after_store_round k (exited code) client s = refl

      storing_round :
          (k : ℕ) (s : Shared)
          → client_actions (suc (suc (suc k))) set env (storing line req) s
            ≡ ended (record_call env line req nonce s)
      unfolding client_actions record_call
      storing_round k s =
          let stored =
            insert_local_event env.event (trim_end line) "SEAL_REQUESTED" (some nonce)
              s.ledger_client in
          after_store_round k stored.0 stored.1 s

      after_lease_round :
          (k : ℕ) (r : Result Unit String) (client : LedgerClient) (s : Shared)
          → proceed
              (client_actions (suc (suc (suc k))) set env)
              (after_lease line req (r, client) s)
            ≡ ended (elim r [
              | err e ↦ deny req e (record s { ledger_client = client })
              | ok u ↦ record_call env line req nonce (record s { ledger_client = client })
            ])
      after_lease_round k (ok u) client s = storing_round k (record s { ledger_client = client })
      after_lease_round k (err e) client s =
          refusing_round set env line (suc (suc k)) req e (record s { ledger_client = client })

      leasing_round :
          (k : ℕ) (s : Shared)
          → client_actions (suc (suc (suc (suc k)))) set env (leasing line req) s
            ≡ ended (lease_call env line req nonce s)
      unfolding client_actions lease_call
      leasing_round k s =
          let lease = ensure_lease env.post env.lease_now s.ledger_client in
          after_lease_round k lease.0 lease.1 s

      looking_round :
          (k : ℕ) (s : Shared)
          → has_nonce env.readable nonce s.ledger_client ≡ false
          → client_actions (suc (suc (suc (suc (suc k))))) set env (looking line req) s
            ≡ ended (lease_call env line req nonce s)
      unfolding client_actions
      looking_round k s h = rw (h, client_actions) (leasing_round k s)

      -- An id that is not in flight, of a call whose nonce is new.
      checking_round :
          (k : ℕ) (s : Shared)
          → is_some (lookup (req_id_str req) s.pending_calls) ≡ false
          → client_actions (suc k) set env (checking line req) s
            ≡ client_actions k set env (looking line req) s
      unfolding client_actions
      checking_round k s h = rw (h, client_actions) refl

      pub gated_round :
          (k : ℕ) (s : Shared)
          → (req_id_str req == "" || req_id_str req == "null") ≡ false
          → client_actions (suc (suc (suc (suc (suc (suc k)))))) set env (checking line req) s
            ≡ ended (gated_call set env line req s)
      unfolding client_actions gated_call
      gated_round k s id = elim (Bool-cases (is_some (lookup (req_id_str req) s.pending_calls))) [
        | inl e ↦ rw (id, e, client_actions, gated_call) refl
        | inr e ↦
            checking_round (suc (suc (suc (suc (suc k))))) s e
            ∙ elim (Bool-cases (has_nonce env.readable nonce s.ledger_client)) [
              | inl f ↦ rw (id, e, f, client_actions, gated_call) refl
              | inr f ↦ looking_round k s f ∙ ap ended (sym (gated s id e f))
            ]
      ]
        where
          gated :
              (s : Shared)
              → (req_id_str req == "" || req_id_str req == "null") ≡ false
              → is_some (lookup (req_id_str req) s.pending_calls) ≡ false
              → has_nonce env.readable nonce s.ledger_client ≡ false
              → gated_call set env line req s ≡ lease_call env line req nonce s
          gated s a b c = rw (a, b, c, gated_call) refl
