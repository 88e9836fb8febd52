-- ===== src/Proxy/Server/Seal.antt =====
-- What one line from the child may do: it is no answer to a pending call, or the call is sealed, or
-- the process ends.
use autonomous_agent_account.Base.{
  String, ◌≡◌, ◌≢◌, ◌⊎◌, inl, inr, refl, ap, Bool, true, false, Option, none, some, [], ◌∷◌, ◌++◌,
  if◌then◌else◌, and_then, is_some, lookup, remove, trim_end, Outcome, done, failed, panicked,
  exited, Bool-cases, Option-cases,
}
use autonomous_agent_account.External.Json.{Json}
use autonomous_agent_account.External.Crypto.{Crypto}
use autonomous_agent_account.Ledger.Client.{LedgerClient}
use autonomous_agent_account.Ledger.Event.{insert_local_event}
use autonomous_agent_account.Ledger.Event.Stored.{Stored, Unstored, insert_local_event-cases}
use autonomous_agent_account.Proxy.State.{Settings, Flow, continue, break, panic, exit, Shared}
use autonomous_agent_account.Proxy.Server.{
  ServerEnv, pass_on, terminal_status, after_seal, seal_response, server_object, server_line,
}

module _ ⦃J : Json⦄ ⦃K : Crypto⦄ where
  open J use {Object, from_str, as_object, map_get, to_string}

  -- The line goes to the client as it is, if the client takes it; otherwise the loop breaks.
  abbrev pub Passed : Bool → String → Shared → Flow × Shared → Type 0
  Passed accepts line s (flow, s') =
      (s'.stdout ≡ (if accepts then s.stdout ++ line ∷ [] else s.stdout))
      × (flow ≡ (if accepts then continue else break))

  -- The line is passed to the client, and nothing else changes.
  abbrev pub Relayed : Bool → String → Shared → Flow × Shared → Type 0
  Relayed accepts line s (flow, s') =
      (s'.child_stdin ≡ s.child_stdin)
      × (s'.pending_calls ≡ s.pending_calls)
      × (s'.ledger_client.db_conn ≡ s.ledger_client.db_conn)
      × Passed accepts line s (flow, s')

  abbrev pub IsTerminal : String → Type 0
  IsTerminal status = (status ≡ "SEAL_FAILED") ⊎ (status ≡ "SEAL_COMPLETED")

  -- The client sees nothing of the answer, and the loop or the process ends.
  abbrev pub Stopped : Shared → Flow × Shared → Type 0
  Stopped s (flow, s') = (s'.stdout ≡ s.stdout) × (flow ≢ continue)

  -- A call is answered and no longer pending. Either nothing is stored and the loop or the process
  -- ends without a word to the client; or its end is stored, and the answer is passed to the client
  -- unless the process dies by fault injection.
  abbrev pub Answered : Bool → String → String → String → String → Shared → Flow × Shared → Type 0
  Answered accepts line id nonce status s (flow, s') =
      (lookup id s.pending_calls ≡ some nonce)
      × (s'.pending_calls ≡ remove id s.pending_calls)
      × (s'.child_stdin ≡ s.child_stdin)
      × (((s'.ledger_client.db_conn ≡ s.ledger_client.db_conn) × Stopped s (flow, s'))
          ⊎ (IsTerminal status
              × (o : Outcome String String) × Stored (trim_end line) nonce status s.ledger_client
                  (o, s'.ledger_client)
              × (((o ≡ done nonce) × Passed accepts line s (flow, s'))
                  ⊎ ((o ≡ exited 9) × Stopped s (flow, s')))))

  -- The id of a pending call that a line answers, the call's nonce, and the status of its end.
  abbrev pub Answer : Type 0
  Answer = String × String × String

  unfoldable pub answers : String → Shared → Option Answer
  answers line s = and_then (and_then (from_str line) as_object) (λ res.
      and_then (map_get res "id") (λ id. and_then (lookup (to_string id) s.pending_calls) (λ nonce.
        some (
          to_string id,
          nonce,
          if is_some (map_get res "error") then "SEAL_FAILED" else "SEAL_COMPLETED",
        ))))

  abbrev pub ServerEffect : Bool → String → Option Answer → Shared → Flow × Shared → Type 0
  ServerEffect accepts line call s r =
      ((call ≡ none) × Relayed accepts line s r)
      ⊎ ((id nonce status : String) × (call ≡ some (id, nonce, status))
          × Answered accepts line id nonce status s r)

  pub terminal_status-IsTerminal : (res : Object) → IsTerminal (terminal_status res)
  terminal_status-IsTerminal res = elim (Bool-cases (is_some (J.map_get res "error"))) [
    | inl e ↦ rw e (inl refl)
    | inr e ↦ rw e (inr refl)
  ]

  module _ (set : Settings) (env : ServerEnv) (line : String) (res : Object) (id nonce : String)
      (s : Shared) (found : lookup id s.pending_calls ≡ some nonce) where
    abbrev removed : Shared
    removed = record s { pending_calls = remove id s.pending_calls }

    abbrev status : String
    status = terminal_status res

    abbrev Ended : Flow × Shared → Type 0
    Ended r = Answered env.client_accepts line id nonce status s r

    stopped-Answered :
        (flow : Flow) (client : LedgerClient)
        → client ≡ s.ledger_client
        → flow ≢ continue
        → Ended (flow, record removed { ledger_client = client })
    stopped-Answered flow client kept stop =
        (found, refl, refl, inl (ap (λ (x : LedgerClient). x.db_conn) kept, (refl, stop)))

    after_seal-Answered :
        (o : Outcome String String) (client : LedgerClient)
        → Unstored s.ledger_client (o, client)
          ⊎ Stored (trim_end line) nonce status s.ledger_client (o, client)
        → Ended (after_seal env line o (record removed { ledger_client = client }))
    unfolding after_seal
    after_seal-Answered (done n) client (inl (kept, not_done)) = absurd (not_done n refl)
    after_seal-Answered (failed e) client (inl (kept, not_done)) =
        stopped-Answered (exit 1) client kept (λ h. cc)
    after_seal-Answered panicked client (inl (kept, not_done)) =
        stopped-Answered panic client kept (λ h. cc)
    after_seal-Answered (exited code) client (inl (kept, not_done)) =
        stopped-Answered (exit code) client kept (λ h. cc)
    after_seal-Answered (done n) client (inr (row, hn, hs, fresh, signed, added, same, inl ends)) =
        elim (Bool-cases env.client_accepts) [
          | inl e ↦ rw e (
            found,
            refl,
            refl,
            inr (
              terminal_status-IsTerminal res,
              done n,
              (row, hn, hs, fresh, signed, added, same, inl ends),
              inl (ends, (refl, refl)),
            ),
          )
          | inr e ↦ rw e (
            found,
            refl,
            refl,
            inr (
              terminal_status-IsTerminal res,
              done n,
              (row, hn, hs, fresh, signed, added, same, inl ends),
              inl (ends, (refl, refl)),
            ),
          )
        ]
    after_seal-Answered (exited code) client
          (inr (row, hn, hs, fresh, signed, added, same, inr ends)) =
        (
          found,
          refl,
          refl,
          inr (
            terminal_status-IsTerminal res,
            exited code,
            (row, hn, hs, fresh, signed, added, same, inr ends),
            inr (ends, (refl, λ h. cc)),
          ),
        )
    after_seal-Answered (done n) client (inr (row, hn, hs, fresh, signed, added, same, inr ends)) =
        cc
    after_seal-Answered (exited code) client
          (inr (row, hn, hs, fresh, signed, added, same, inl ends)) =
        cc
    after_seal-Answered (failed e) client
          (inr (row, hn, hs, fresh, signed, added, same, inl ends)) =
        cc
    after_seal-Answered (failed e) client
          (inr (row, hn, hs, fresh, signed, added, same, inr ends)) =
        cc
    after_seal-Answered panicked client (inr (row, hn, hs, fresh, signed, added, same, inl ends)) =
        cc
    after_seal-Answered panicked client (inr (row, hn, hs, fresh, signed, added, same, inr ends)) =
        cc

    seal_response-Answered : Ended (seal_response set env line res nonce removed)
    unfolding seal_response
    seal_response-Answered = crash_or_seal set.crash_after_execution
      where
        crash_or_seal :
            (crashes : Bool)
            → let r =
                insert_local_event env.event (trim_end line) status (some nonce) s.ledger_client in
              Ended (
                if crashes
                then (exit 9, removed)
                else after_seal env line r.0 (record removed { ledger_client = r.1 }))
        crash_or_seal true = stopped-Answered (exit 9) s.ledger_client refl (λ h. cc)
        crash_or_seal false =
            after_seal-Answered _ _ (
              insert_local_event-cases env.event (trim_end line) status (some nonce)
                s.ledger_client)

  pass_on-Relayed :
      (accepts : Bool) (line : String) (s : Shared)
      → Relayed accepts line s (pass_on accepts line s)
  pass_on-Relayed true line s = (refl, refl, refl, (refl, refl))
  pass_on-Relayed false line s = (refl, refl, refl, (refl, refl))

  transfer :
      (accepts : Bool) (line : String) (s : Shared) (call : Option Answer) (r : Flow × Shared)
      (call' : Option Answer) (r' : Flow × Shared)
      → call ≡ call'
      → r ≡ r'
      → ServerEffect accepts line call' s r'
      → ServerEffect accepts line call s r
  transfer accepts line s call r call' r' p q h = rw (p, q) h

  module _ (set : Settings) (env : ServerEnv) (line : String) (s : Shared) where
    relayed-ServerEffect :
        answers line s ≡ none
        → server_line set env line s ≡ pass_on env.client_accepts line s
        → ServerEffect env.client_accepts line (answers line s) s (server_line set env line s)
    relayed-ServerEffect p q =
        transfer env.client_accepts line s (answers line s) (server_line set env line s) none
          (pass_on env.client_accepts line s) p q
          (inl (refl, pass_on-Relayed env.client_accepts line s))

    pub server_line-ServerEffect :
        ServerEffect env.client_accepts line (answers line s) s (server_line set env line s)
    unfolding server_line answers
    server_line-ServerEffect = elim (Option-cases (and_then (from_str line) as_object)) [
      | inl e ↦ relayed-ServerEffect (rw (e, answers)) (rw (e, server_line))
      | inr (res, e) ↦ elim (Option-cases (map_get res "id")) [
        | inl f ↦ relayed-ServerEffect (rw (e, f, answers)) (rw (e, f, server_line, server_object))
        | inr (v, f) ↦ elim (Option-cases (lookup (to_string v) s.pending_calls)) [
          | inl g ↦
              relayed-ServerEffect (rw (e, f, g, answers))
                (rw (e, f, g, server_line, server_object))
          | inr (nonce, g) ↦
              transfer env.client_accepts line s (answers line s) (server_line set env line s)
                (some (to_string v, nonce, terminal_status res))
                (seal_response set env line res nonce
                  (record s { pending_calls = remove (to_string v) s.pending_calls }))
                (rw (e, f, g, answers)) (rw (e, f, g, server_line, server_object))
                (inr (
                  to_string v,
                  nonce,
                  terminal_status res,
                  refl,
                  seal_response-Answered set env line res (to_string v) nonce s g,
                ))
        ]
      ]
    ]
