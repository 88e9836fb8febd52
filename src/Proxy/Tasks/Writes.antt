-- ===== src/Proxy/Tasks/Writes.antt =====
-- What one action may write: to the child, or to the log.
use autonomous_agent_account.Base.{
  ℕ, String, ◌≡◌, ◌⊎◌, inl, inr, refl, sym, ap, subst, Bool, true, false, Option, none, some, [],
  ◌∷◌, ◌++◌, is_some, lookup, trim_end, Result, ok, err, Outcome, done, failed, panicked, exited,
  Bool-cases, if◌then◌else◌,
}
use autonomous_agent_account.External.Json.{Json}
use autonomous_agent_account.External.Crypto.{Crypto}
use autonomous_agent_account.Ledger.Database.{Database}
use autonomous_agent_account.Ledger.Client.{LedgerClient}
use autonomous_agent_account.Ledger.Lease.{has_nonce, ensure_lease}
use autonomous_agent_account.Ledger.Lease.Grants.{LeaseResult, ensure_lease-LeaseResult}
use autonomous_agent_account.Ledger.Event.{insert_local_event}
use autonomous_agent_account.Ledger.Event.Stored.{Stored, Unstored, insert_local_event-cases}
use autonomous_agent_account.Proxy.Request.{req_id_str, stable_nonce}
use autonomous_agent_account.Proxy.State.{Settings, Shared}
use autonomous_agent_account.Proxy.Client.{ClientEnv}
use autonomous_agent_account.Proxy.Server.{ServerEnv, terminal_status}
use autonomous_agent_account.Proxy.Server.Seal.{IsTerminal, terminal_status-IsTerminal}
use autonomous_agent_account.Proxy.Actions.Client.{
  ClientTask, after_lease, after_store, client_action,
}
use autonomous_agent_account.Proxy.Actions.Server.{
  ServerTask, after_sealing, take_call, server_action,
}

module _ ⦃K : Crypto⦄ where
  -- The keys and the name of the device stay.
  abbrev pub SameKeys : LedgerClient → LedgerClient → Type 0
  SameKeys self self' =
      (self'.device_id ≡ self.device_id)
      × (self'.signing_key ≡ self.signing_key)
      × (self'.ledger_pub_key ≡ self.ledger_pub_key)

  pub same-SameKeys : (self self' : LedgerClient) → self' ≡ self → SameKeys self self'
  same-SameKeys self self' e = (
    ap (λ (c : LedgerClient). c.device_id) e,
    ap (λ (c : LedgerClient). c.signing_key) e,
    ap (λ (c : LedgerClient). c.ledger_pub_key) e,
  )

  pub with_db-SameKeys :
      (self self' : LedgerClient) (db : Database)
      → self' ≡ record self { db_conn = db }
      → SameKeys self self'
  with_db-SameKeys self self' db e = (
    ap (λ (c : LedgerClient). c.device_id) e,
    ap (λ (c : LedgerClient). c.signing_key) e,
    ap (λ (c : LedgerClient). c.ledger_pub_key) e,
  )

module _ ⦃J : Json⦄ ⦃K : Crypto⦄ where
  -- Of what the child and the log hold, an action changes nothing, sends one line, or stores one event.
  pub data Wrote (s s' : Shared) : Type 0 where
    stays :
        s'.child_stdin ≡ s.child_stdin
        → s'.ledger_client.db_conn ≡ s.ledger_client.db_conn
        → SameKeys s.ledger_client s'.ledger_client
        → Wrote s s'
    sends :
        (line : String)
        → s'.child_stdin ≡ s.child_stdin ++ line ∷ []
        → s'.ledger_client ≡ s.ledger_client
        → Wrote s s'
    stores :
        (raw nonce status : String) (o : Outcome String String)
        → (status ≡ "SEAL_REQUESTED") ⊎ IsTerminal status
        → s'.child_stdin ≡ s.child_stdin
        → Stored raw nonce status s.ledger_client (o, s'.ledger_client)
        → Wrote s s'

module _ ⦃J : Json⦄ ⦃K : Crypto⦄ where
  open J use {Object}

  same-Wrote : (s : Shared) → Wrote s s
  same-Wrote s = Wrote.stays refl refl (refl, refl, refl)

  insert-Wrote :
      (raw nonce status : String) (o : Outcome String String) (client : LedgerClient) (s : Shared)
      → (status ≡ "SEAL_REQUESTED") ⊎ IsTerminal status
      → Unstored s.ledger_client (o, client) ⊎ Stored raw nonce status s.ledger_client (o, client)
      → Wrote s (record s { ledger_client = client })
  insert-Wrote raw nonce status o client s which (inl (same, not_done)) =
      Wrote.stays refl (ap (λ (c : LedgerClient). c.db_conn) same)
        (same-SameKeys s.ledger_client client same)
  insert-Wrote raw nonce status o client s which (inr stored) =
      Wrote.stores raw nonce status o which refl stored

  -- What is stored does not depend on what the task does next.
  after_store-shared :
      (line : String) (req : Object) (o : Outcome String String) (client : LedgerClient)
      (s : Shared)
      → (after_store line req (o, client) s).1 ≡ record s { ledger_client = client }
  after_store-shared line req (done n) client s = refl
  after_store-shared line req (failed e) client s = refl
  after_store-shared line req panicked client s = refl
  after_store-shared line req (exited code) client s = refl

  after_sealing-shared :
      (line : String) (o : Outcome String String) (client : LedgerClient) (s : Shared)
      → (after_sealing line (o, client) s).1 ≡ record s { ledger_client = client }
  after_sealing-shared line (done n) client s = refl
  after_sealing-shared line (failed e) client s = refl
  after_sealing-shared line panicked client s = refl
  after_sealing-shared line (exited code) client s = refl

  after_lease-Wrote :
      (now : ℕ) (line : String) (req : Object) (r : Result Unit String) (client : LedgerClient)
      (s : Shared)
      → LeaseResult now s.ledger_client (r, client)
      → Wrote s (after_lease line req (r, client) s).1
  after_lease-Wrote now line req (ok u) client s (inl (exp, e, l, same)) =
      Wrote.stays refl (ap (λ (c : LedgerClient). c.db_conn) same)
        (same-SameKeys s.ledger_client client same)
  after_lease-Wrote now line req (ok u) client s (inr (exp, sig, v, same)) =
      Wrote.stays refl (ap (λ (c : LedgerClient). c.db_conn) same) (
        ap (λ (c : LedgerClient). c.device_id) same,
        ap (λ (c : LedgerClient). c.signing_key) same,
        ap (λ (c : LedgerClient). c.ledger_pub_key) same,
      )
  after_lease-Wrote now line req (err e) client s same =
      Wrote.stays refl (ap (λ (c : LedgerClient). c.db_conn) same)
        (same-SameKeys s.ledger_client client same)

  pub client_action-Wrote :
      (set : Settings) (env : ClientEnv) (input : String) (task : ClientTask) (s : Shared)
      → Wrote s (client_action set env input task s).1
  unfolding client_action
  client_action-Wrote set env input ClientTask.reading s = same-Wrote s
  client_action-Wrote set env input (ClientTask.answering text) s =
      Wrote.stays refl refl (refl, refl, refl)
  client_action-Wrote set env input (ClientTask.passing line) s =
      elim (Bool-cases env.child_accepts) [
        | inl e ↦ rw e (Wrote.sends line refl refl)
        | inr e ↦ rw e (same-Wrote s)
      ]
  client_action-Wrote set env input (ClientTask.checking line req) s =
      elim (Bool-cases (is_some (lookup (req_id_str req) s.pending_calls))) [
        | inl e ↦ rw e (same-Wrote s)
        | inr e ↦ rw e (same-Wrote s)
      ]
  client_action-Wrote set env input (ClientTask.looking line req) s =
      elim (Bool-cases (has_nonce env.readable (stable_nonce set.device_id req) s.ledger_client)) [
        | inl e ↦ rw e (same-Wrote s)
        | inr e ↦ rw e (same-Wrote s)
      ]
  client_action-Wrote set env input (ClientTask.leasing line req) s =
      let r = ensure_lease env.post env.lease_now s.ledger_client in
      after_lease-Wrote env.lease_now line req r.0 r.1 s
        (ensure_lease-LeaseResult env.post env.lease_now s.ledger_client)
  client_action-Wrote set env input (ClientTask.storing line req) s =
      let nonce = stable_nonce set.device_id req in
      let r =
        insert_local_event env.event (trim_end line) "SEAL_REQUESTED" (some nonce)
          s.ledger_client in
      subst (Wrote s) (sym (after_store-shared line req r.0 r.1 s)) (
        insert-Wrote (trim_end line) nonce "SEAL_REQUESTED" r.0 r.1 s (inl refl) (
          insert_local_event-cases env.event (trim_end line) "SEAL_REQUESTED" (some nonce)
            s.ledger_client))
  client_action-Wrote set env input (ClientTask.filing line req) s =
      Wrote.stays refl refl (refl, refl, refl)
  client_action-Wrote set env input ClientTask.closed s = same-Wrote s

  sealing-Wrote :
      (env : ServerEnv) (line : String) (res : Object) (nonce : String) (s : Shared)
      (crashes : Bool)
      → let r =
          insert_local_event env.event
            (trim_end line)
            (terminal_status res)
            (some nonce)
            s.ledger_client in
        let a = if crashes then (ServerTask.closed, s, some 9) else after_sealing line r s in
        Wrote s a.1
  sealing-Wrote env line res nonce s true = same-Wrote s
  sealing-Wrote env line res nonce s false =
      let r =
        insert_local_event env.event (trim_end line) (terminal_status res) (some nonce)
          s.ledger_client in
      subst (Wrote s) (sym (after_sealing-shared line r.0 r.1 s)) (
        insert-Wrote (trim_end line) nonce (terminal_status res) r.0 r.1 s
          (inr (terminal_status-IsTerminal res))
          (insert_local_event-cases env.event (trim_end line) (terminal_status res) (some nonce)
            s.ledger_client))

  take_call-Wrote :
      (line : String) (res : Object) (id : String) (found : Option String) (s : Shared)
      → Wrote s (take_call line res id found s).1
  take_call-Wrote line res id none s = same-Wrote s
  take_call-Wrote line res id (some nonce) s = Wrote.stays refl refl (refl, refl, refl)

  pub server_action-Wrote :
      (set : Settings) (env : ServerEnv) (input : String) (task : ServerTask) (s : Shared)
      → Wrote s (server_action set env input task s).1
  unfolding server_action
  server_action-Wrote set env input ServerTask.reading s = same-Wrote s
  server_action-Wrote set env input (ServerTask.matching line res id) s =
      take_call-Wrote line res id (lookup id s.pending_calls) s
  server_action-Wrote set env input (ServerTask.sealing line res nonce) s =
      sealing-Wrote env line res nonce s set.crash_after_execution
  server_action-Wrote set env input (ServerTask.relaying line) s =
      elim (Bool-cases env.client_accepts) [
        | inl e ↦ rw e (Wrote.stays refl refl (refl, refl, refl))
        | inr e ↦ rw e (same-Wrote s)
      ]
  server_action-Wrote set env input ServerTask.closed s = same-Wrote s
