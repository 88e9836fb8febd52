-- ===== src/Proxy/Client/Effect.antt =====
-- What one line from the client may do: it is refused, it passes unrecorded, or it is a tool call
-- that is recorded under its nonce.
use autonomous_agent_account.Base.{
  String, ◌≡◌, ◌⊎◌, inl, inr, refl, ◌∙◌, ap, Bool, ◌&&◌, ◌||◌, Option, none, some, [], ◌∷◌, ◌++◌,
  ◌==◌, and_then, is_some, lookup, insert, trim_end, arith, Result, ok, err, Outcome, done, failed,
  panicked, exited, Bool-cases, Option-cases, if◌then◌else◌,
}
use autonomous_agent_account.Base.Int.{negsuc}
use autonomous_agent_account.External.Json.{Json}
use autonomous_agent_account.External.Crypto.{Crypto}
use autonomous_agent_account.Ledger.Client.{LedgerClient}
use autonomous_agent_account.Ledger.Lease.{has_nonce}
use autonomous_agent_account.Ledger.Lease.Grants.{
  Leased, LeaseResult, ensure_lease-LeaseResult, ensure_lease-db,
}
use autonomous_agent_account.Ledger.Event.Stored.{Stored, Unstored, insert_local_event-cases}
use autonomous_agent_account.Proxy.Decision.{is_irreversible}
use autonomous_agent_account.Proxy.Request.{is_tool_call, req_id_str, tool_name_str, stable_nonce}
use autonomous_agent_account.Proxy.State.{
  Settings, Flow, continue, Shared, say, forward, error_line,
}
use autonomous_agent_account.Proxy.Client.{
  ClientEnv, deny, after_insert, record_call, lease_call, gated_call, client_object, client_value,
  client_line,
}

module _ ⦃J : Json⦄ ⦃K : Crypto⦄ where
  open J use {Value, Object, from_str, as_object, map_get}

  -- The call goes through the ledger: a `tools/call` that the policy does not let bypass it.
  abbrev pub needs_ledger : Settings → Object → Bool
  needs_ledger set req =
      is_tool_call req && is_irreversible set.policy_json (tool_name_str req) (map_get req "params")

  abbrev pub object_nonce : Settings → Object → Option String
  object_nonce set req =
      if needs_ledger set req then some (stable_nonce set.device_id req) else none

  -- The nonce of a line that is such a call.
  unfoldable pub call_nonce : Settings → String → Option String
  call_nonce set line = and_then (and_then (from_str line) as_object) (object_nonce set)

  -- Neither the child, the pending calls nor the database have changed.
  abbrev pub Refused : Shared → Shared → Type 0
  Refused s s' =
      (s'.child_stdin ≡ s.child_stdin)
      × (s'.pending_calls ≡ s.pending_calls)
      × (s'.ledger_client.db_conn ≡ s.ledger_client.db_conn)

  -- The child has the line, and nothing else has changed.
  abbrev pub Passed : String → Shared → Shared → Type 0
  Passed line s s' = s' ≡ record s { child_stdin = s.child_stdin ++ line ∷ [] }

  -- Under a lease the call was stored as requested, and then either the line went to the child with
  -- the call pending, or the child has nothing.
  abbrev pub Recorded : ClientEnv → String → String → Shared → Shared → Type 0
  Recorded env line nonce s s' =
      (client : LedgerClient) × (o : Outcome String String) × (id : String) × Leased env.lease_now
        s.ledger_client client
      × Stored (trim_end line) nonce "SEAL_REQUESTED" client (o, s'.ledger_client)
      × ((s'.pending_calls ≡ insert id nonce s.pending_calls)
          ⊎ (s'.pending_calls ≡ s.pending_calls))
      × (((s'.child_stdin ≡ s.child_stdin ++ line ∷ [])
            × (s'.pending_calls ≡ insert id nonce s.pending_calls))
          ⊎ (s'.child_stdin ≡ s.child_stdin))

  -- The effect of one line, by the nonce of the call that it is, if it is one.
  abbrev pub LineEffect : ClientEnv → String → Option String → Shared → Shared → Type 0
  LineEffect env line call s s' =
      Refused s s'
      ⊎ (Passed line s s' × (call ≡ none))
      ⊎ ((nonce : String) × (call ≡ some nonce) × Recorded env line nonce s s')

  transfer :
      (env : ClientEnv) (line : String) (s : Shared) (call : Option String) (r : Flow × Shared)
      (call' : Option String) (r' : Flow × Shared)
      → call ≡ call'
      → r ≡ r'
      → LineEffect env line call' s r'.1
      → LineEffect env line call s r.1
  transfer env line s call r call' r' p q h = rw (p, q) h

  deny-Refused : (req : Object) (e : String) (s : Shared) → Refused s (deny req e s).1
  unfolding deny
  deny-Refused req e s = ground arith

  module _ (env : ClientEnv) (line : String) (req : Object) (nonce : String) (s : Shared)
      (client : LedgerClient) (leased : Leased env.lease_now s.ledger_client client)
      (same : client.db_conn ≡ s.ledger_client.db_conn) where
    after_insert-Unstored :
        (o : Outcome String String) (client' : LedgerClient)
        → Unstored client (o, client')
        → Refused s (after_insert env line req nonce o (record s { ledger_client = client' })).1
    unfolding after_insert
    after_insert-Unstored (done n) client' (kept, not_done) = absurd (not_done n refl)
    after_insert-Unstored (failed e) client' (kept, not_done) =
        let (a, b, c) = deny-Refused req e (record s { ledger_client = client' }) in
        (a, b, c ∙ ap (λ (x : LedgerClient). x.db_conn) kept ∙ same)
    after_insert-Unstored panicked client' (kept, not_done) =
        (refl, refl, ap (λ (x : LedgerClient). x.db_conn) kept ∙ same)
    after_insert-Unstored (exited code) client' (kept, not_done) =
        (refl, refl, ap (λ (x : LedgerClient). x.db_conn) kept ∙ same)

    after_insert-Stored :
        (o : Outcome String String) (client' : LedgerClient)
        → Stored (trim_end line) nonce "SEAL_REQUESTED" client (o, client')
        → Recorded env line nonce s
            (after_insert env line req nonce o (record s { ledger_client = client' })).1
    unfolding after_insert
    after_insert-Stored (done n) client' stored = elim (Bool-cases env.child_accepts) [
      | inl e ↦ rw e (client, done n, req_id_str req, leased, stored, inl refl, inl (refl, refl))
      | inr e ↦ rw e (client, done n, req_id_str req, leased, stored, inl refl, inr refl)
    ]
    after_insert-Stored (failed e) client' (row, a, b, c, d, f, g, h) = absurd (ground arith)
    after_insert-Stored panicked client' (row, a, b, c, d, f, g, h) = absurd (ground arith)
    after_insert-Stored (exited code) client' stored =
        (client, exited code, req_id_str req, leased, stored, inr refl, inr refl)

    record_call-Effect :
        let s' = (record_call env line req nonce (record s { ledger_client = client })).1 in
        Refused s s' ⊎ Recorded env line nonce s s'
    unfolding record_call
    record_call-Effect =
        go _ _
          (insert_local_event-cases env.event (trim_end line) "SEAL_REQUESTED" (some nonce) client)
      where
        go :
            (o : Outcome String String) (client' : LedgerClient)
            → Unstored client (o, client')
              ⊎ Stored (trim_end line) nonce "SEAL_REQUESTED" client (o, client')
            → let s' =
                (after_insert env line req nonce o (record s { ledger_client = client' })).1 in
              Refused s s' ⊎ Recorded env line nonce s s'
        go o client' (inl u) = inl (after_insert-Unstored o client' u)
        go o client' (inr st) = inr (after_insert-Stored o client' st)

  module _ (env : ClientEnv) (line : String) (req : Object) (nonce : String) (s : Shared) where
    abbrev after_lease : Result Unit String → LedgerClient → Flow × Shared
    after_lease lease client = elim lease [
      | err e ↦ deny req e (record s { ledger_client = client })
      | ok u ↦ record_call env line req nonce (record s { ledger_client = client })
    ]

    after_lease-Effect :
        (lease : Result Unit String) (client : LedgerClient)
        → LeaseResult env.lease_now s.ledger_client (lease, client)
        → client.db_conn ≡ s.ledger_client.db_conn
        → Refused s (after_lease lease client).1
          ⊎ Recorded env line nonce s (after_lease lease client).1
    after_lease-Effect (ok u) client leased same =
        record_call-Effect env line req nonce s client leased same
    after_lease-Effect (err e) client kept same =
        let (a, b, c) = deny-Refused req e (record s { ledger_client = client }) in
        inl (a, b, c ∙ same)

    lease_call-Effect :
        let s' = (lease_call env line req nonce s).1 in Refused s s' ⊎ Recorded env line nonce s s'
    unfolding lease_call
    lease_call-Effect =
        after_lease-Effect _ _ (ensure_lease-LeaseResult env.post env.lease_now s.ledger_client)
          (ensure_lease-db env.post env.lease_now s.ledger_client)

  gated_call-Effect :
      (set : Settings) (env : ClientEnv) (line : String) (req : Object) (s : Shared)
      → let s' = (gated_call set env line req s).1 in
        Refused s s' ⊎ Recorded env line (stable_nonce set.device_id req) s s'
  unfolding gated_call
  gated_call-Effect set env line req s =
      elim (Bool-cases (req_id_str req == "" || req_id_str req == "null")) [
        | inl e ↦ rw e (inl (refl, refl, refl))
        | inr a ↦ elim (Bool-cases (is_some (lookup (req_id_str req) s.pending_calls))) [
          | inl e ↦ rw (a, e) (inl (refl, refl, refl))
          | inr b ↦
              elim (Bool-cases
                (has_nonce env.readable (stable_nonce set.device_id req) s.ledger_client)) [
                  | inl e ↦ rw (a, b, e) (inl (refl, refl, refl))
                  | inr c ↦
                      rw (a, b, c)
                        (lease_call-Effect env line req (stable_nonce set.device_id req) s)
                ]
        ]
      ]

  forward-Effect :
      (env : ClientEnv) (line : String) (s : Shared)
      → LineEffect env line none s (forward env.child_accepts line s).1
  forward-Effect env line s = elim (Bool-cases env.child_accepts) [
    | inl h ↦ rw h (inr (inl (refl, refl)))
    | inr h ↦ rw h (inl (refl, refl, refl))
  ]

  client_object-Effect :
      (set : Settings) (env : ClientEnv) (line : String) (req : Object) (s : Shared)
      → LineEffect env line (object_nonce set req) s (client_object set env line req s).1
  unfolding client_object
  client_object-Effect set env line req s = elim (Bool-cases (is_tool_call req)) [
    | inr e ↦
        transfer env line s (object_nonce set req) (client_object set env line req s) none
          (forward env.child_accepts line s) (rw e) (rw (e, client_object))
          (forward-Effect env line s)
    | inl e ↦
        elim (Bool-cases
          (is_irreversible set.policy_json (tool_name_str req) (map_get req "params"))) [
            | inr f ↦
                transfer env line s (object_nonce set req) (client_object set env line req s) none
                  (forward env.child_accepts line s) (rw (e, f)) (rw (e, f, client_object))
                  (forward-Effect env line s)
            | inl f ↦
                transfer env line s (object_nonce set req) (client_object set env line req s)
                  (some (stable_nonce set.device_id req)) (gated_call set env line req s)
                  (rw (e, f)) (rw (e, f, client_object))
                  (elim (gated_call-Effect set env line req s) [
                    | inl refused ↦ inl refused
                    | inr recorded ↦ inr (inr (stable_nonce set.device_id req, refl, recorded))
                  ])
          ]
  ]

  -- A line from the client is refused, passes unrecorded, or is recorded, whatever the outside does;
  -- only a line that is no tool call under the ledger passes unrecorded.
  pub client_line-LineEffect :
      (set : Settings) (env : ClientEnv) (line : String) (s : Shared)
      → LineEffect env line (call_nonce set line) s (client_line set env line s).1
  unfolding client_line call_nonce
  client_line-LineEffect set env line s = elim (Option-cases (from_str line)) [
    | inl e ↦
        transfer env line s (call_nonce set line) (client_line set env line s) none
          (forward env.child_accepts line s) (rw (e, call_nonce)) (rw (e, client_line))
          (forward-Effect env line s)
    | inr (val, e) ↦ elim (Option-cases (as_object val)) [
      | inr (req, f) ↦
          transfer env line s (call_nonce set line) (client_line set env line s)
            (object_nonce set req) (client_object set env line req s) (rw (e, f, call_nonce))
            (rw (e, f, client_line, client_value)) (client_object-Effect set env line req s)
      | inl f ↦ elim (Bool-cases (J.is_array val)) [
        | inl g ↦
            transfer env line s (call_nonce set line) (client_line set env line s) none
              (
                continue,
                say (error_line (negsuc 32599) "JSON-RPC batches are unsupported" J.null) s,
              )
              (rw (e, f, call_nonce)) (rw (e, f, g, client_line, client_value))
              (inl (refl, refl, refl))
        | inr g ↦
            transfer env line s (call_nonce set line) (client_line set env line s) none
              (forward env.child_accepts line s) (rw (e, f, call_nonce))
              (rw (e, f, g, client_line, client_value)) (forward-Effect env line s)
      ]
    ]
  ]
