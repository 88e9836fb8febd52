-- ===== src/Proxy/Tasks/Life.antt =====
-- What the relay promises of one call: it is requested, then it may be sent and it may end, once
-- each.
pub mod Refined
use autonomous_agent_account.Base.{
  ℕ, ◌+◌, ◌≤◌, String, ◌≡◌, ◌⊎◌, inl, inr, refl, subst, Bool, List, [], ◌∷◌, ◌++◌, ◌==◌, arith,
  count, Bool-cases,
}
use autonomous_agent_account.External.Json.{Json}
use autonomous_agent_account.External.Crypto.{Crypto}
use autonomous_agent_account.Ledger.Database.{Database}
use autonomous_agent_account.Ledger.Database.Keys.{rows}
use autonomous_agent_account.Proxy.State.{Settings}
use autonomous_agent_account.Proxy.Server.Seal.{IsTerminal}
use autonomous_agent_account.Proxy.Relay.Account.{is_call, calls, Adds}
use autonomous_agent_account.Proxy.Relay.Account.{
  Adds-zero, request-Adds, failure-Adds, completion-Adds,
}
use autonomous_agent_account.Base.{count-append}
use autonomous_agent_account.Proxy.Tasks.{Tasks}

-- How often a call was requested, sent to a child, and ended as a failure or as a completion.
pub record Life : Type 0 where
  pub requests : ℕ
  pub sendings : ℕ
  pub failures : ℕ
  pub completions : ℕ

abbrev pub unborn : Life
unborn = record { requests = 0; sendings = 0; failures = 0; completions = 0 }

-- A call is requested first, and sent or ended only afterwards; each event comes at most once, and
-- an end is a failure or a completion, not both.
pub data Advance (l l' : Life) : Type 0 where
  stay : l' ≡ l → Advance l l'
  request : l ≡ unborn → l' ≡ record unborn { requests = 1 } → Advance l l'
  send : l.requests ≡ 1 → l.sendings ≡ 0 → l' ≡ record l { sendings = 1 } → Advance l l'
  fail :
      l.requests ≡ 1
      → l.failures ≡ 0
      → l.completions ≡ 0
      → l' ≡ record l { failures = 1 }
      → Advance l l'
  complete :
      l.requests ≡ 1
      → l.failures ≡ 0
      → l.completions ≡ 0
      → l' ≡ record l { completions = 1 }
      → Advance l l'

abbrev life_of : ℕ → ℕ → ℕ → ℕ → Life
life_of requests sendings failures completions = record {
  requests = requests;
  sendings = sendings;
  failures = failures;
  completions = completions;
}

module _ ⦃J : Json⦄ ⦃K : Crypto⦄ (set : Settings) (n : String) where
  abbrev pub life_in : List String → Database → Life
  life_in child db =
      life_of (rows n "SEAL_REQUESTED" db) (calls set n child) (rows n "SEAL_FAILED" db)
        (rows n "SEAL_COMPLETED" db)

  abbrev pub life : Tasks → Life
  life t = life_in t.shared.child_stdin t.shared.ledger_client.db_conn

  requested_life :
      (r c f k : ℕ)
      → r ≡ 0
      → c ≡ 0
      → f ≡ 0
      → k ≡ 0
      → Advance (life_of r c f k) (life_of (r + 1) c f k)
  requested_life r c f k a b d e = rw (a, b, d, e) (Advance.request refl refl)

  sent_life : (r c f k : ℕ) → r ≡ 1 → c ≡ 0 → Advance (life_of r c f k) (life_of r (c + 1) f k)
  sent_life r c f k a b = rw (a, b) (Advance.send refl refl refl)

  failed_life :
      (r c f k : ℕ) → r ≡ 1 → f ≡ 0 → k ≡ 0 → Advance (life_of r c f k) (life_of r c (f + 1) k)
  failed_life r c f k a b d = rw (a, b, d) (Advance.fail refl refl refl refl)

  completed_life :
      (r c f k : ℕ) → r ≡ 1 → f ≡ 0 → k ≡ 0 → Advance (life_of r c f k) (life_of r c f (k + 1))
  completed_life r c f k a b d = rw (a, b, d) (Advance.complete refl refl refl refl)

  -- What the account of the nonce says of its life.
  abbrev pub Fits : List String → Database → Type 0
  Fits child db =
      (calls set n child ≤ rows n "SEAL_REQUESTED" db)
      × (rows n "SEAL_REQUESTED" db ≤ 1)
      × (rows n "SEAL_FAILED" db + rows n "SEAL_COMPLETED" db ≤ rows n "SEAL_REQUESTED" db)

  module _ (child : List String) (db : Database) where
    pub line_sent :
        (line : String)
        → Fits (child ++ line ∷ []) db
        → Advance (life_in child db) (life_in (child ++ line ∷ []) db)
    line_sent line (sent, once, ended) =
        let more = count-append (is_call set n) child (line ∷ []) in
        elim (Bool-cases (is_call set n line)) [
          | inr e ↦ rw more (rw e (Advance.stay (ground arith)))
          | inl e ↦
              let more1 : calls set n (child ++ line ∷ []) ≡ calls set n child + 1 =
                rw more (rw e refl) in
              rw more1 (
                sent_life _ _ (rows n "SEAL_FAILED" db) (rows n "SEAL_COMPLETED" db)
                  (omega (arith, sent, once, more1)) (omega (arith, sent, once, more1)))
        ]

    pub same_rows :
        (child' : List String) (db' : Database)
        → child' ≡ child
        → rows n "SEAL_REQUESTED" db' ≡ rows n "SEAL_REQUESTED" db
        → rows n "SEAL_FAILED" db' ≡ rows n "SEAL_FAILED" db
        → rows n "SEAL_COMPLETED" db' ≡ rows n "SEAL_COMPLETED" db
        → Advance (life_in child db) (life_in child' db')
    same_rows child' db' e r f c = rw (e, r, f, c) (Advance.stay refl)

    module _ (nonce : String) (db' : Database) (before : Fits child db)
        (after : Fits child db') where
      request_stored :
          Adds set nonce "SEAL_REQUESTED" db db' → Advance (life_in child db) (life_in child db')
      request_stored adds =
          let (r, f, c) = request-Adds set n nonce db db' adds in
          elim (Bool-cases (nonce == n)) [
            | inr q ↦ same_rows child db' refl (let k = rw q at r in omega (arith, k)) f c
            | inl q ↦
                let none_yet = Adds-zero set n nonce db db' "SEAL_REQUESTED" adds q in
                rw (rw q at r, f, c)
                  (requested_life _ (calls set n child) (rows n "SEAL_FAILED" db)
                    (rows n "SEAL_COMPLETED" db) none_yet (omega (arith, none_yet, before.0))
                    (omega (arith, none_yet, before.2)) (omega (arith, none_yet, before.2)))
          ]

      failure_stored :
          Adds set nonce "SEAL_FAILED" db db' → Advance (life_in child db) (life_in child db')
      failure_stored adds =
          let (r, f, c) = failure-Adds set n nonce db db' adds in
          elim (Bool-cases (nonce == n)) [
            | inr q ↦ same_rows child db' refl r (let k = rw q at f in omega (arith, k)) c
            | inl q ↦
                let k = rw q at f in
                rw (k, r, c)
                  (failed_life _ (calls set n child) (rows n "SEAL_FAILED" db)
                    (rows n "SEAL_COMPLETED" db) (omega (arith, k, r, c, after.1, after.2))
                    (omega (arith, k, r, c, after.1, after.2))
                    (omega (arith, k, r, c, after.1, after.2)))
          ]

      completion_stored :
          Adds set nonce "SEAL_COMPLETED" db db' → Advance (life_in child db) (life_in child db')
      completion_stored adds =
          let (r, f, c) = completion-Adds set n nonce db db' adds in
          elim (Bool-cases (nonce == n)) [
            | inr q ↦ same_rows child db' refl r f (let k = rw q at c in omega (arith, k))
            | inl q ↦
                let k = rw q at c in
                rw (k, r, f)
                  (completed_life _ (calls set n child) (rows n "SEAL_FAILED" db)
                    (rows n "SEAL_COMPLETED" db) (omega (arith, k, r, f, after.1, after.2))
                    (omega (arith, k, r, f, after.1, after.2))
                    (omega (arith, k, r, f, after.1, after.2)))
          ]

      pub event_stored :
          (status : String)
          → (status ≡ "SEAL_REQUESTED") ⊎ IsTerminal status
          → Adds set nonce status db db'
          → Advance (life_in child db) (life_in child db')
      event_stored status (inl e) adds =
          request_stored (subst (λ (s : String). Adds set nonce s db db') e adds)
      event_stored status (inr (inl e)) adds =
          failure_stored (subst (λ (s : String). Adds set nonce s db db') e adds)
      event_stored status (inr (inr e)) adds =
          completion_stored (subst (λ (s : String). Adds set nonce s db db') e adds)
