-- ===== src/Proxy/Tasks/Moves.antt =====
-- Each action of the client's task keeps the account of every nonce.
use autonomous_agent_account.Base.{
  ℕ, String, ◌≡◌, ◌⊎◌, inl, inr, refl, some, ◌==◌, is_some, lookup, trim_end, arith, Result, ok,
  err, Outcome, done, failed, panicked, exited, Bool-cases, Option-cases,
}
use autonomous_agent_account.External.Json.{Json}
use autonomous_agent_account.External.Crypto.{Crypto}
use autonomous_agent_account.Ledger.Client.{LedgerClient}
use autonomous_agent_account.Ledger.Lease.{has_nonce, ensure_lease}
use autonomous_agent_account.Ledger.Lease.Grants.{ensure_lease-db}
use autonomous_agent_account.Ledger.Event.{insert_local_event}
use autonomous_agent_account.Ledger.Event.Stored.{Stored, Unstored, insert_local_event-cases}
use autonomous_agent_account.Proxy.Request.{req_id_str, stable_nonce}
use autonomous_agent_account.Proxy.State.{Settings, Shared}
use autonomous_agent_account.Proxy.Client.{ClientEnv}
use autonomous_agent_account.Proxy.Client.Effect.{call_nonce}
use autonomous_agent_account.Proxy.Actions.Client.{
  ClientTask, reading, answering, passing, checking, looking, leasing, storing, filing, closed,
  after_lease, after_store, refusing, read_line, client_action,
}
use autonomous_agent_account.Proxy.Relay.Pending.{unit_if}
use autonomous_agent_account.Proxy.Relay.Account.{is_call, Adds, Stored-Adds}
use autonomous_agent_account.Proxy.Tasks.Account.{
  IsAccounted, dropped-IsAccounted, stored-IsAccounted, filed-IsAccounted, passed-IsAccounted,
}
use autonomous_agent_account.Proxy.Tasks.Reads.{IsRead, read_line-IsRead}

module _ ⦃J : Json⦄ ⦃K : Crypto⦄ (set : Settings) where
  open J use {Value, Object, from_str, as_object, is_array, map_get}

  -- The call that the task handles is one under the ledger.
  abbrev pub IsGated : ClientTask → Type 0
  IsGated reading = Unit
  IsGated (answering text) = Unit
  IsGated (passing line) = Unit
  IsGated (checking line req) = call_nonce set line ≡ some (stable_nonce set.device_id req)
  IsGated (looking line req) = call_nonce set line ≡ some (stable_nonce set.device_id req)
  IsGated (leasing line req) = call_nonce set line ≡ some (stable_nonce set.device_id req)
  IsGated (storing line req) = call_nonce set line ≡ some (stable_nonce set.device_id req)
  IsGated (filing line req) = call_nonce set line ≡ some (stable_nonce set.device_id req)
  IsGated closed = Unit

  -- What the task is about to send to the child, and to file as pending, under a nonce.
  abbrev pub to_send : String → ClientTask → ℕ
  to_send n (passing line) = unit_if (is_call set n line)
  to_send n (filing line req) = unit_if (stable_nonce set.device_id req == n)
  to_send n _ = 0

  abbrev pub to_file : String → ClientTask → ℕ
  to_file n (filing line req) = unit_if (stable_nonce set.device_id req == n)
  to_file n _ = 0

  module _ (n : String) (seal : ℕ) where
    abbrev pub Kept : ClientTask → Shared → Type 0
    Kept task s =
        IsGated task
        × IsAccounted set n s.child_stdin s.pending_calls s.ledger_client.db_conn (to_send n task)
            (to_file n task) seal

    read-Kept :
        (task : ClientTask) (s : Shared)
        → IsRead set task
        → IsAccounted set n s.child_stdin s.pending_calls s.ledger_client.db_conn 0 0 seal
        → Kept task s
    read-Kept (answering text) s r h = (tt, h)
    read-Kept (passing line) s r h = (tt, rw (r, is_call) h)
    read-Kept (checking line req) s r h = (r, h)
    read-Kept reading s r h = absurd r
    read-Kept (looking line req) s r h = absurd r
    read-Kept (leasing line req) s r h = absurd r
    read-Kept (storing line req) s r h = absurd r
    read-Kept (filing line req) s r h = absurd r
    read-Kept closed s r h = absurd r

    refusing-Kept :
        (req : Object) (e : String) (s : Shared)
        → IsAccounted set n s.child_stdin s.pending_calls s.ledger_client.db_conn 0 0 seal
        → Kept (refusing req e) s
    refusing-Kept req e s h = elim (Option-cases (map_get req "id")) [
      | inl p ↦ rw (p, refusing) (tt, h)
      | inr (id, p) ↦ rw (p, refusing) (tt, h)
    ]

    module _ (line : String) (req : Object) (s : Shared)
        (gated : call_nonce set line ≡ some (stable_nonce set.device_id req))
        (h : IsAccounted set n s.child_stdin s.pending_calls s.ledger_client.db_conn 0 0 seal) where
      after_lease-Kept :
          (r : Result Unit String) (client : LedgerClient)
          → client.db_conn ≡ s.ledger_client.db_conn
          → let a = after_lease line req (r, client) s in Kept a.0 a.1
      after_lease-Kept (ok u) client same = (gated, rw same h)
      after_lease-Kept (err e) client same =
          refusing-Kept req e (record s { ledger_client = client }) (rw same h)

      after_store-Unstored :
          (o : Outcome String String) (client : LedgerClient)
          → Unstored s.ledger_client (o, client)
          → let a = after_store line req (o, client) s in Kept a.0 a.1
      after_store-Unstored (done n) client (kept, not_done) = absurd (not_done n refl)
      after_store-Unstored (failed e) client (kept, not_done) =
          refusing-Kept req e (record s { ledger_client = client }) (rw kept h)
      after_store-Unstored panicked client (kept, not_done) = (tt, rw kept h)
      after_store-Unstored (exited code) client (kept, not_done) = (tt, rw kept h)

      after_store-Stored :
          (o : Outcome String String) (client : LedgerClient)
          → (o ≡ done (stable_nonce set.device_id req)) ⊎ (o ≡ exited 9)
          → Adds set
              (stable_nonce set.device_id req)
              "SEAL_REQUESTED"
              s.ledger_client.db_conn
              client.db_conn
          → let a = after_store line req (o, client) s in Kept a.0 a.1
      after_store-Stored (done x) client ends adds = (
        gated,
        stored-IsAccounted set n s.child_stdin s.pending_calls s.ledger_client.db_conn _ seal
            client.db_conn adds h,
      )
      after_store-Stored (failed e) client ends adds = absurd (ground arith)
      after_store-Stored panicked client ends adds = absurd (ground arith)
      after_store-Stored (exited code) client ends adds = (
        tt,
        dropped-IsAccounted set n s.child_stdin s.pending_calls client.db_conn _ _ seal (
            stored-IsAccounted set n s.child_stdin s.pending_calls s.ledger_client.db_conn _ seal
              client.db_conn adds h),
      )

      storing-Kept :
          (o : Outcome String String) (client : LedgerClient)
          → Unstored s.ledger_client (o, client)
            ⊎ Stored
                (trim_end line)
                (stable_nonce set.device_id req)
                "SEAL_REQUESTED"
                s.ledger_client
                (o, client)
          → let a = after_store line req (o, client) s in Kept a.0 a.1
      storing-Kept o client (inl unstored) = after_store-Unstored o client unstored
      storing-Kept o client (inr stored) =
          after_store-Stored o client (ends_of stored)
            (Stored-Adds set (trim_end line) _ "SEAL_REQUESTED" s.ledger_client client o stored)
        where
          ends_of :
              Stored
                (trim_end line)
                (stable_nonce set.device_id req)
                "SEAL_REQUESTED"
                s.ledger_client
                (o, client)
              → (o ≡ done (stable_nonce set.device_id req)) ⊎ (o ≡ exited 9)
          ends_of (row, hn, hs, fresh, signed, (added, free, log, receipts), same, ends) = ends

    -- An action of the client's task keeps the account of a nonce, and that the call it handles is one
    -- under the ledger.
    pub client_action-Kept :
        (env : ClientEnv) (input : String) (task : ClientTask) (s : Shared)
        → Kept task s
        → let a = client_action set env input task s in Kept a.0 a.1
    unfolding client_action
    client_action-Kept env input reading s (g, h) =
        read-Kept (read_line set input) s (read_line-IsRead set input) h
    client_action-Kept env input (answering text) s (g, h) = (tt, h)
    client_action-Kept env input (passing line) s (g, h) = elim (Bool-cases env.child_accepts) [
      | inl e ↦ rw e (
        tt,
        passed-IsAccounted set n s.child_stdin s.pending_calls s.ledger_client.db_conn line 0 seal
            h,
      )
      | inr e ↦ rw e (
        tt,
        dropped-IsAccounted set n s.child_stdin s.pending_calls s.ledger_client.db_conn _ 0 seal h,
      )
    ]
    client_action-Kept env input (checking line req) s (g, h) =
        elim (Bool-cases (is_some (lookup (req_id_str req) s.pending_calls))) [
          | inl e ↦ rw e (tt, h)
          | inr e ↦ rw e (g, h)
        ]
    client_action-Kept env input (looking line req) s (g, h) =
        elim (Bool-cases
          (has_nonce env.readable (stable_nonce set.device_id req) s.ledger_client)) [
            | inl e ↦ rw e (tt, h)
            | inr e ↦ rw e (g, h)
          ]
    client_action-Kept env input (leasing line req) s (g, h) =
        let r = ensure_lease env.post env.lease_now s.ledger_client in
        after_lease-Kept line req s g h r.0 r.1
          (ensure_lease-db env.post env.lease_now s.ledger_client)
    client_action-Kept env input (storing line req) s (g, h) =
        let nonce = stable_nonce set.device_id req in
        let r =
          insert_local_event env.event (trim_end line) "SEAL_REQUESTED" (some nonce)
            s.ledger_client in
        storing-Kept line req s g h r.0 r.1 (
          insert_local_event-cases env.event (trim_end line) "SEAL_REQUESTED" (some nonce)
            s.ledger_client)
    client_action-Kept env input (filing line req) s (g, h) =
        let nonce = stable_nonce set.device_id req in
        (
          tt,
          rw (g, is_call)
              (filed-IsAccounted set n s.child_stdin s.pending_calls s.ledger_client.db_conn nonce
                (req_id_str req) (unit_if (nonce == n)) seal h),
        )
    client_action-Kept env input closed s (g, h) = (tt, h)
