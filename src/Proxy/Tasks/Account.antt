-- ===== src/Proxy/Tasks/Account.antt =====
-- The account of a nonce while tasks are between two accesses: what the client's task is about to
-- send and to file, and what the child's task is about to seal, count too.
use autonomous_agent_account.Base.{
  ℕ, ◌+◌, ◌≤◌, String, ◌≡◌, ◌⊎◌, inl, inr, subst, some, List, [], ◌∷◌, ◌++◌, ◌==◌, count-append,
  lookup, remove, insert, arith, Bool-cases,
}
use autonomous_agent_account.External.Json.{Json}
use autonomous_agent_account.External.Crypto.{Crypto}
use autonomous_agent_account.Ledger.Database.{Database}
use autonomous_agent_account.Ledger.Database.Keys.{rows}
use autonomous_agent_account.Proxy.State.{Settings}
use autonomous_agent_account.Proxy.Relay.Pending.{
  in_flight, unit_if, in_flight-insert, in_flight-remove,
}
use autonomous_agent_account.Proxy.Relay.Account.{
  is_call, calls, Adds, Adds-zero, request-Adds, failure-Adds, completion-Adds,
}

module _ ⦃J : Json⦄ ⦃K : Crypto⦄ (set : Settings) where
  -- At most one request is stored, no call went out or is about to without it, and the ends that are
  -- stored, expected, or about to be either are no more than the request.
  pub record IsAccounted (n : String) (child : List String) (pending : List (String × String))
      (db : Database) (to_send to_file to_seal : ℕ) : Type 0 where
    pub sent : calls set n child + to_send ≤ rows n "SEAL_REQUESTED" db
    pub once : rows n "SEAL_REQUESTED" db ≤ 1
    pub ended :
        rows n "SEAL_FAILED" db
          + rows n "SEAL_COMPLETED" db
          + in_flight n pending
          + to_file
          + to_seal
        ≤ rows n "SEAL_REQUESTED" db

  module _ (n : String) (child : List String) (pending : List (String × String))
      (db : Database) where
    pub started-IsAccounted :
        (send file seal : ℕ)
        → IsAccounted n child pending db send file seal
        → IsAccounted n child [] db 0 0 0
    started-IsAccounted send file seal h = record {
      sent = omega (arith, h.sent);
      once = h.once;
      ended = omega (arith, h.ended);
    }

    -- A client's task that gives up, or has nothing to give up.
    pub dropped-IsAccounted :
        (send file seal : ℕ)
        → IsAccounted n child pending db send file seal
        → IsAccounted n child pending db 0 0 seal
    dropped-IsAccounted send file seal h = record {
      sent = omega (arith, h.sent);
      once = h.once;
      ended = omega (arith, h.ended);
    }

    pub unsealed-IsAccounted :
        (send file seal : ℕ)
        → IsAccounted n child pending db send file seal
        → IsAccounted n child pending db send file 0
    unsealed-IsAccounted send file seal h = record {
      sent = h.sent;
      once = h.once;
      ended = omega (arith, h.ended);
    }

    pub stored-IsAccounted :
        (nonce : String) (seal : ℕ) (db' : Database)
        → Adds set nonce "SEAL_REQUESTED" db db'
        → IsAccounted n child pending db 0 0 seal
        → IsAccounted n child pending db' (unit_if (nonce == n)) (unit_if (nonce == n)) seal
    stored-IsAccounted nonce seal db' adds h =
        let (r, f, c) = request-Adds set n nonce db db' adds in
        let zero_if = Adds-zero set n nonce db db' "SEAL_REQUESTED" adds in
        elim (Bool-cases (nonce == n)) [
          | inl q ↦ rw q (record {
            sent = omega (arith, rw q at r, h.sent);
            once = omega (arith, rw q at r, zero_if q);
            ended = omega (arith, rw q at r, f, c, h.ended, zero_if q);
          })
          | inr q ↦ rw q (record {
            sent = omega (arith, rw q at r, h.sent);
            once = omega (arith, rw q at r, h.once);
            ended = omega (arith, rw q at r, f, c, h.ended);
          })
        ]

    pub filed-IsAccounted :
        (nonce id : String) (send seal : ℕ)
        → IsAccounted n child pending db send (unit_if (nonce == n)) seal
        → IsAccounted n child (insert id nonce pending) db send 0 seal
    filed-IsAccounted nonce id send seal h = record {
      sent = h.sent;
      once = h.once;
      ended = omega (arith, h.ended, in_flight-insert n id nonce pending);
    }

    pub passed-IsAccounted :
        (line : String) (file seal : ℕ)
        → IsAccounted n child pending db (unit_if (is_call set n line)) file seal
        → IsAccounted n (child ++ line ∷ []) pending db 0 file seal
    passed-IsAccounted line file seal h = record {
      sent = omega (arith, h.sent, count-append (is_call set n) child (line ∷ []));
      once = h.once;
      ended = h.ended;
    }

    pub taken-IsAccounted :
        (nonce id : String) (send file : ℕ)
        → lookup id pending ≡ some nonce
        → IsAccounted n child pending db send file 0
        → IsAccounted n child (remove id pending) db send file (unit_if (nonce == n))
    taken-IsAccounted nonce id send file found h = record {
      sent = h.sent;
      once = h.once;
      ended = omega (arith, h.ended, in_flight-remove n id nonce pending found);
    }

    pub sealed-IsAccounted :
        (nonce status : String) (send file : ℕ) (db' : Database)
        → (status ≡ "SEAL_FAILED") ⊎ (status ≡ "SEAL_COMPLETED")
        → Adds set nonce status db db'
        → IsAccounted n child pending db send file (unit_if (nonce == n))
        → IsAccounted n child pending db' send file 0
    sealed-IsAccounted nonce status send file db' (inl e) adds h =
        let (r, f, c) =
          failure-Adds set n nonce db db' (subst (λ s. Adds set nonce s db db') e adds) in
        record {
          sent = omega (arith, h.sent, r);
          once = omega (arith, h.once, r);
          ended = omega (arith, h.ended, r, f, c);
        }
    sealed-IsAccounted nonce status send file db' (inr e) adds h =
        let (r, f, c) =
          completion-Adds set n nonce db db' (subst (λ s. Adds set nonce s db db') e adds) in
        record {
          sent = omega (arith, h.sent, r);
          once = omega (arith, h.once, r);
          ended = omega (arith, h.ended, r, f, c);
        }

    pub synced-IsAccounted :
        (send file seal : ℕ) (db' : Database)
        → ((status : String) → rows n status db' ≡ rows n status db)
        → IsAccounted n child pending db send file seal
        → IsAccounted n child pending db' send file seal
    synced-IsAccounted send file seal db' same h = record {
      sent = omega (arith, h.sent, same "SEAL_REQUESTED");
      once = omega (arith, h.once, same "SEAL_REQUESTED");
      ended =
          omega (arith, h.ended, same "SEAL_REQUESTED", same "SEAL_FAILED", same "SEAL_COMPLETED");
    }
