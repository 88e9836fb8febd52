-- ===== src/Proxy/Relay/Steps.antt =====
-- Every step of the relay keeps the account of every nonce balanced.
use autonomous_agent_account.Base.{
  count-append, String, ◌≡◌, ◌⊎◌, inl, inr, refl, sym, ap, subst, Bool, Option, List, [], ◌∷◌, ◌++◌,
  arith,
}
use autonomous_agent_account.External.Json.{Json}
use autonomous_agent_account.External.Crypto.{Crypto}
use autonomous_agent_account.Ledger.Database.{Database}
use autonomous_agent_account.Ledger.Lease.Grants.{Leased-db}
use autonomous_agent_account.Ledger.Sync.{SyncEnv}
use autonomous_agent_account.Ledger.Sync.Outcome.{rows-sync_queue}
use autonomous_agent_account.Proxy.State.{Settings, Flow, continue, break, panic, exit, Shared}
use autonomous_agent_account.Proxy.Client.{ClientEnv, client_line}
use autonomous_agent_account.Proxy.Client.Effect.{call_nonce, LineEffect, client_line-LineEffect}
use autonomous_agent_account.Proxy.Server.{ServerEnv, server_line}
use autonomous_agent_account.Proxy.Server.Seal.{
  Answer, answers, ServerEffect, server_line-ServerEffect,
}
use autonomous_agent_account.Proxy.Relay.{
  Relay, after_client, after_server, synced, restarted, crashed, Step, client_step, server_step,
  sync_step, restart, client_crash, server_crash,
}
use autonomous_agent_account.Proxy.Relay.Account.{
  calls, is_call, IsBalanced, Adds, Stored-Adds, passed-IsBalanced, recorded-IsBalanced,
  answered-IsBalanced, removed-IsBalanced,
}

module _ ⦃K : Crypto⦄ where
  -- However a round ends, its state stays.
  pub after_client-shared : (r : Relay) (x : Flow × Shared) → (after_client r x).shared ≡ x.1
  unfolding after_client
  after_client-shared r (continue, s) = refl
  after_client-shared r (break, s) = refl
  after_client-shared r (panic, s) = refl
  after_client-shared r (exit code, s) = refl

  pub after_server-shared : (r : Relay) (x : Flow × Shared) → (after_server r x).shared ≡ x.1
  unfolding after_server
  after_server-shared r (continue, s) = refl
  after_server-shared r (break, s) = refl
  after_server-shared r (panic, s) = refl
  after_server-shared r (exit code, s) = refl

module _ ⦃J : Json⦄ ⦃K : Crypto⦄ (set : Settings) (nonce : String) where
  abbrev pub Balanced : Shared → Type 0
  Balanced s = IsBalanced set nonce s.child_stdin s.pending_calls s.ledger_client.db_conn

  kept-Balanced :
      (s s' : Shared)
      → s'.child_stdin ≡ s.child_stdin
      → s'.pending_calls ≡ s.pending_calls
      → s'.ledger_client.db_conn ≡ s.ledger_client.db_conn
      → Balanced s
      → Balanced s'
  kept-Balanced s s' a b c h = rw (a, b, c) h

  -- The accounts of a state from which a crash has taken the pending calls.
  forgotten-Balanced :
      (child : List String) (pending : List (String × String)) (db : Database)
      → IsBalanced set nonce child pending db
      → IsBalanced set nonce child [] db
  forgotten-Balanced child pending db h = record {
    sent = h.sent;
    once = h.once;
    ended = omega (arith, h.ended);
  }

  module _ (line : String) (s s' : Shared) (h : Balanced s) where
    LineEffect-Balanced :
        (env : ClientEnv) → LineEffect env line (call_nonce set line) s s' → Balanced s'
    LineEffect-Balanced env (inl (a, b, c)) = kept-Balanced s s' a b c h
    LineEffect-Balanced env (inr (inl (same, e))) =
        subst Balanced (sym same) (
          passed-IsBalanced set nonce s.child_stdin s.pending_calls s.ledger_client.db_conn line e
            h)
    LineEffect-Balanced env (inr (inr (n, e, (client, o, id, leased, stored, flight, sent)))) =
        recorded-IsBalanced set nonce s.child_stdin s.pending_calls s.ledger_client.db_conn line n
          id s'.child_stdin s'.pending_calls s'.ledger_client.db_conn e
          (subst (λ (d : Database). Adds set n "SEAL_REQUESTED" d s'.ledger_client.db_conn)
            (Leased-db env.lease_now s.ledger_client client leased)
            (Stored-Adds set _ n "SEAL_REQUESTED" client s'.ledger_client o stored))
          (elim sent [ inl x ↦ inl x.0 | inr x ↦ inr x ]) flight h

    ServerEffect-Balanced :
        (accepts : Bool) (call : Option Answer) (flow : Flow)
        → ServerEffect accepts line call s (flow, s')
        → Balanced s'
    ServerEffect-Balanced accepts call flow (inl (e, (a, b, c, out))) = kept-Balanced s s' a b c h
    ServerEffect-Balanced accepts call flow
          (inr (id, n', status, e, (found, gone, child, inl (same, stop)))) =
        rw (gone, child, same)
          (removed-IsBalanced set nonce s.child_stdin s.pending_calls s.ledger_client.db_conn n' id
            found h)
    ServerEffect-Balanced accepts call flow
          (inr (id, n', status, e, (found, gone, child, inr (terminal, o, stored, rest)))) =
        rw (gone, child)
          (answered-IsBalanced set nonce s.child_stdin s.pending_calls s.ledger_client.db_conn n' id
            status s'.ledger_client.db_conn found terminal
            (Stored-Adds set _ n' status s.ledger_client s'.ledger_client o stored) h)

  client_line-Balanced :
      (env : ClientEnv) (line : String) (s : Shared)
      → Balanced s
      → Balanced (client_line set env line s).1
  client_line-Balanced env line s h =
      LineEffect-Balanced line s (client_line set env line s).1 h env
        (client_line-LineEffect set env line s)

  server_line-Balanced :
      (env : ServerEnv) (line : String) (s : Shared)
      → Balanced s
      → Balanced (server_line set env line s).1
  server_line-Balanced env line s h =
      ServerEffect-Balanced line s (server_line set env line s).1 h env.client_accepts
        (answers line s) (server_line set env line s).0 (server_line-ServerEffect set env line s)

  crashed-Balanced :
      (r : Relay) (s : Shared)
      → Balanced (record s { child_stdin = r.shared.child_stdin })
      → Balanced (crashed r s).shared
  unfolding restarted
  crashed-Balanced r s h =
      forgotten-Balanced r.shared.child_stdin s.pending_calls s.ledger_client.db_conn h

  restarted-Balanced : (r : Relay) → Balanced r.shared → Balanced (restarted r).shared
  unfolding restarted
  restarted-Balanced r h =
      forgotten-Balanced r.shared.child_stdin r.shared.pending_calls r.shared.ledger_client.db_conn
        h

  synced-Balanced : (env : SyncEnv) (r : Relay) → Balanced r.shared → Balanced (synced env r).shared
  unfolding synced
  synced-Balanced env r h =
      let r' =
        rows-sync_queue nonce "SEAL_REQUESTED" env.readable env.post env.tx
          r.shared.ledger_client in
      let f =
        rows-sync_queue nonce "SEAL_FAILED" env.readable env.post env.tx r.shared.ledger_client in
      let c =
        rows-sync_queue nonce "SEAL_COMPLETED" env.readable env.post env.tx
          r.shared.ledger_client in
      record {
        sent = omega (arith, h.sent, r');
        once = omega (arith, h.once, r');
        ended = omega (arith, h.ended, r', f, c);
      }

  -- A line takes nothing from what the child has.
  LineEffect-child :
      (env : ClientEnv) (line : String) (call : Option String) (s s' : Shared)
      → LineEffect env line call s s'
      → (s'.child_stdin ≡ s.child_stdin) ⊎ (s'.child_stdin ≡ s.child_stdin ++ line ∷ [])
  LineEffect-child env line call s s' (inl (a, b, c)) = inl a
  LineEffect-child env line call s s' (inr (inl (same, e))) =
      inr (ap (λ (x : Shared). x.child_stdin) same)
  LineEffect-child env line call s s'
        (inr (inr (n, e, (client, o, id, leased, stored, flight, inl (sent, p))))) =
      inr sent
  LineEffect-child env line call s s'
        (inr (inr (n, e, (client, o, id, leased, stored, flight, inr sent)))) =
      inl sent

  ServerEffect-child :
      (accepts : Bool) (line : String) (call : Option Answer) (s s' : Shared) (flow : Flow)
      → ServerEffect accepts line call s (flow, s')
      → s'.child_stdin ≡ s.child_stdin
  ServerEffect-child accepts line call s s' flow (inl (e, (a, b, c, out))) = a
  ServerEffect-child accepts line call s s' flow
        (inr (id, n', status, e, (found, gone, child, rest))) =
      child

  shorter-Balanced :
      (line : String) (s s' : Shared)
      → (s'.child_stdin ≡ s.child_stdin) ⊎ (s'.child_stdin ≡ s.child_stdin ++ line ∷ [])
      → Balanced s'
      → Balanced (record s' { child_stdin = s.child_stdin })
  shorter-Balanced line s s' (inl e) h =
      subst (λ c. IsBalanced set nonce c s'.pending_calls s'.ledger_client.db_conn) e h
  shorter-Balanced line s s' (inr e) h = record {
    sent = omega (
      arith,
      h.sent,
      ap (calls set nonce) e,
      count-append (is_call set nonce) s.child_stdin (line ∷ []),
    );
    once = h.once;
    ended = h.ended;
  }

  client_crash-Balanced :
      (r : Relay) (env : ClientEnv) (line : String)
      → Balanced r.shared
      → Balanced (crashed r (client_line set env line r.shared).1).shared
  client_crash-Balanced r env line h =
      let s = (client_line set env line r.shared).1 in
      crashed-Balanced r s (
        shorter-Balanced line r.shared s
          (LineEffect-child env line (call_nonce set line) r.shared s
            (client_line-LineEffect set env line r.shared))
          (client_line-Balanced env line r.shared h))

  server_crash-Balanced :
      (r : Relay) (env : ServerEnv) (line : String)
      → Balanced r.shared
      → Balanced (crashed r (server_line set env line r.shared).1).shared
  server_crash-Balanced r env line h =
      let x = server_line set env line r.shared in
      crashed-Balanced r x.1 (
        shorter-Balanced line r.shared x.1
          (inl (
            ServerEffect-child env.client_accepts line (answers line r.shared) r.shared x.1 x.0
              (server_line-ServerEffect set env line r.shared)))
          (server_line-Balanced env line r.shared h))

  pub Step-Balanced : (r r' : Relay) → Step set r r' → Balanced r.shared → Balanced r'.shared
  Step-Balanced r _ (client_step env line o e) h =
      subst Balanced (sym (after_client-shared r (client_line set env line r.shared)))
        (client_line-Balanced env line r.shared h)
  Step-Balanced r _ (server_step env line o e) h =
      subst Balanced (sym (after_server-shared r (server_line set env line r.shared)))
        (server_line-Balanced env line r.shared h)
  Step-Balanced r _ (sync_step env e) h = synced-Balanced env r h
  Step-Balanced r _ restart h = restarted-Balanced r h
  Step-Balanced r _ (client_crash env line) h = client_crash-Balanced r env line h
  Step-Balanced r _ (server_crash env line) h = server_crash-Balanced r env line h
