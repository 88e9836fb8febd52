-- ===== src/Proxy/Relay/Account.antt =====
-- The account of a nonce: how many lines the child was sent under it, how often it was requested,
-- ended, and is pending. Every change of the state keeps it balanced.
use autonomous_agent_account.Base.{
  ℕ, ◌+◌, ◌≤◌, String, ◌≡◌, ◌⊎◌, inl, inr, refl, subst, Bool, true, false, ◌&&◌, none, some, List,
  [], ◌∷◌, ◌++◌, ◌==◌, eq_iff, count, count-append, lookup, remove, insert, arith, Outcome,
  Bool-cases,
}
use autonomous_agent_account.External.Json.{Json}
use autonomous_agent_account.External.Crypto.{Crypto}
use autonomous_agent_account.Ledger.Database.{Database}
use autonomous_agent_account.Ledger.Database.Keys.{rows, rows-insert_event}
use autonomous_agent_account.Ledger.Client.{LedgerClient}
use autonomous_agent_account.Ledger.Event.Stored.{Stored}
use autonomous_agent_account.Proxy.State.{Settings}
use autonomous_agent_account.Proxy.Client.Effect.{call_nonce}
use autonomous_agent_account.Proxy.Relay.Pending.{
  in_flight, unit_if, in_flight-insert, in_flight-remove,
}

module _ ⦃J : Json⦄ ⦃K : Crypto⦄ (set : Settings) where
  abbrev pub is_call : String → String → Bool
  is_call nonce line = elim (call_nonce set line) [ none ↦ false | some n ↦ n == nonce ]

  -- How many lines that are tool calls under the nonce have gone to the child.
  abbrev pub calls : String → List String → ℕ
  calls nonce lines = count (is_call nonce) lines

  -- At most one request is stored, no call went out without it, and the ends that are stored and
  -- those still expected are no more than the request.
  pub record IsBalanced (nonce : String) (child : List String) (pending : List (String × String))
      (db : Database) : Type 0 where
    pub sent : calls nonce child ≤ rows nonce "SEAL_REQUESTED" db
    pub once : rows nonce "SEAL_REQUESTED" db ≤ 1
    pub ended :
        rows nonce "SEAL_FAILED" db + rows nonce "SEAL_COMPLETED" db + in_flight nonce pending
        ≤ rows nonce "SEAL_REQUESTED" db

  -- What an event stored under a nonce adds to the account of another.
  abbrev pub Adds : String → String → Database → Database → Type 0
  Adds nonce status db db' =
      (rows nonce status db ≡ 0)
      × ((n s : String) → rows n s db' ≡ rows n s db + unit_if (nonce == n && status == s))

  pub Stored-Adds :
      (raw nonce status : String) (client client' : LedgerClient) (o : Outcome String String)
      → Stored raw nonce status client (o, client')
      → Adds nonce status client.db_conn client'.db_conn
  Stored-Adds raw nonce status client client' o
        (row, hn, hs, fresh, signed, (added, free, log, receipts), same, ends) =
      (
        rw (← hn, ← hs) (rows-insert_event nonce status row client.db_conn client'.db_conn added).0,
        λ n s. rw (← hn, ← hs) (rows-insert_event n s row client.db_conn client'.db_conn added).1,
      )

  calls-none :
      (n line : String) (child : List String)
      → call_nonce set line ≡ none
      → calls n (child ++ line ∷ []) ≡ calls n child
  calls-none n line child e = rw count-append (rw (e, is_call) (omega arith))

  calls-some :
      (n nonce line : String) (child : List String)
      → call_nonce set line ≡ some nonce
      → calls n (child ++ line ∷ []) ≡ calls n child + unit_if (nonce == n)
  calls-some n nonce line child e = rw count-append (rw (e, is_call) refl)

  -- The other accounts of an event: an event under another nonce, or of another status.
  module _ (n nonce : String) (db db' : Database) where
    pub Adds-zero :
        (status : String) → Adds nonce status db db' → (nonce == n) ≡ true → rows n status db ≡ 0
    Adds-zero status adds e = rw (← (eq_iff nonce n).0 e) adds.0

    pub request-Adds :
        Adds nonce "SEAL_REQUESTED" db db'
        → (rows n "SEAL_REQUESTED" db' ≡ rows n "SEAL_REQUESTED" db + unit_if (nonce == n))
          × (rows n "SEAL_FAILED" db' ≡ rows n "SEAL_FAILED" db)
          × (rows n "SEAL_COMPLETED" db' ≡ rows n "SEAL_COMPLETED" db)
    request-Adds adds = (
      ground (arith, adds.1 n "SEAL_REQUESTED"),
      ground (arith, adds.1 n "SEAL_FAILED"),
      ground (arith, adds.1 n "SEAL_COMPLETED"),
    )

    pub failure-Adds :
        Adds nonce "SEAL_FAILED" db db'
        → (rows n "SEAL_REQUESTED" db' ≡ rows n "SEAL_REQUESTED" db)
          × (rows n "SEAL_FAILED" db' ≡ rows n "SEAL_FAILED" db + unit_if (nonce == n))
          × (rows n "SEAL_COMPLETED" db' ≡ rows n "SEAL_COMPLETED" db)
    failure-Adds adds = (
      ground (arith, adds.1 n "SEAL_REQUESTED"),
      ground (arith, adds.1 n "SEAL_FAILED"),
      ground (arith, adds.1 n "SEAL_COMPLETED"),
    )

    pub completion-Adds :
        Adds nonce "SEAL_COMPLETED" db db'
        → (rows n "SEAL_REQUESTED" db' ≡ rows n "SEAL_REQUESTED" db)
          × (rows n "SEAL_FAILED" db' ≡ rows n "SEAL_FAILED" db)
          × (rows n "SEAL_COMPLETED" db' ≡ rows n "SEAL_COMPLETED" db + unit_if (nonce == n))
    completion-Adds adds = (
      ground (arith, adds.1 n "SEAL_REQUESTED"),
      ground (arith, adds.1 n "SEAL_FAILED"),
      ground (arith, adds.1 n "SEAL_COMPLETED"),
    )

  module _ (n : String) (child : List String) (pending : List (String × String))
      (db : Database) where
    pub passed-IsBalanced :
        (line : String)
        → call_nonce set line ≡ none
        → IsBalanced n child pending db
        → IsBalanced n (child ++ line ∷ []) pending db
    passed-IsBalanced line e h = record {
      sent = omega (arith, h.sent, calls-none n line child e);
      once = h.once;
      ended = h.ended;
    }

    calls-le :
        (line nonce : String) (child' : List String)
        → call_nonce set line ≡ some nonce
        → (child' ≡ child ++ line ∷ []) ⊎ (child' ≡ child)
        → calls n child' ≤ calls n child + unit_if (nonce == n)
    calls-le line nonce child' e (inl sent) =
        rw sent (omega (arith, calls-some n nonce line child e))
    calls-le line nonce child' e (inr same) = rw same (omega arith)

    in_flight-le :
        (nonce id : String) (pending' : List (String × String))
        → (pending' ≡ insert id nonce pending) ⊎ (pending' ≡ pending)
        → in_flight n pending' ≤ in_flight n pending + unit_if (nonce == n)
    in_flight-le nonce id pending' (inl e) = rw e (in_flight-insert n id nonce pending)
    in_flight-le nonce id pending' (inr e) = rw e (omega arith)

    pub recorded-IsBalanced :
        (line nonce id : String) (child' : List String) (pending' : List (String × String))
        (db' : Database)
        → call_nonce set line ≡ some nonce
        → Adds nonce "SEAL_REQUESTED" db db'
        → (child' ≡ child ++ line ∷ []) ⊎ (child' ≡ child)
        → (pending' ≡ insert id nonce pending) ⊎ (pending' ≡ pending)
        → IsBalanced n child pending db
        → IsBalanced n child' pending' db'
    recorded-IsBalanced line nonce id child' pending' db' e adds sent flight h =
        let (r, f, c) = request-Adds n nonce db db' adds in
        let s = calls-le line nonce child' e sent in
        let p = in_flight-le nonce id pending' flight in
        let zero_if = Adds-zero n nonce db db' "SEAL_REQUESTED" adds in
        elim (Bool-cases (nonce == n)) [
          | inl q ↦ record {
            sent = omega (arith, rw q at s, rw q at r, h.sent);
            once = omega (arith, rw q at r, zero_if q);
            ended = omega (arith, rw q at p, rw q at r, f, c, h.ended, zero_if q);
          }
          | inr q ↦ record {
            sent = omega (arith, rw q at s, rw q at r, h.sent);
            once = omega (arith, rw q at r, h.once);
            ended = omega (arith, rw q at p, rw q at r, f, c, h.ended);
          }
        ]

    pub answered-IsBalanced :
        (nonce id status : String) (db' : Database)
        → lookup id pending ≡ some nonce
        → (status ≡ "SEAL_FAILED") ⊎ (status ≡ "SEAL_COMPLETED")
        → Adds nonce status db db'
        → IsBalanced n child pending db
        → IsBalanced n child (remove id pending) db'
    answered-IsBalanced nonce id status db' found (inl e) adds h =
        let (r, f, c) =
          failure-Adds n nonce db db' (subst (λ (s : String). Adds nonce s db db') e adds) in
        record {
          sent = omega (arith, h.sent, r);
          once = omega (arith, h.once, r);
          ended = omega (arith, h.ended, in_flight-remove n id nonce pending found, r, f, c);
        }
    answered-IsBalanced nonce id status db' found (inr e) adds h =
        let (r, f, c) =
          completion-Adds n nonce db db' (subst (λ (s : String). Adds nonce s db db') e adds) in
        record {
          sent = omega (arith, h.sent, r);
          once = omega (arith, h.once, r);
          ended = omega (arith, h.ended, in_flight-remove n id nonce pending found, r, f, c);
        }

    pub removed-IsBalanced :
        (nonce id : String)
        → lookup id pending ≡ some nonce
        → IsBalanced n child pending db
        → IsBalanced n child (remove id pending) db
    removed-IsBalanced nonce id found h = record {
      sent = h.sent;
      once = h.once;
      ended = omega (arith, h.ended, in_flight-remove n id nonce pending found);
    }
