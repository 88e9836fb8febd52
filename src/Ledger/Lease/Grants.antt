-- ===== src/Ledger/Lease/Grants.antt =====
-- When `ensure_lease` lets a call through, and that a refusal changes nothing.
use autonomous_agent_account.Base.{
  ℕ, ◌<◌, String, ◌≡◌, ◌⊎◌, inl, inr, refl, true, ◌◇◌, Option, none, some, arith, and_then, Result,
  ok, err, Bool-cases, ap, nat_eq, ◌||◌,
}
use autonomous_agent_account.External.Json.{Json}
use autonomous_agent_account.External.Crypto.{Crypto}
use autonomous_agent_account.External.Http.{Reply, network_error, response}
use autonomous_agent_account.Ledger.Client.{LedgerClient}
use autonomous_agent_account.Ledger.Lease.{
  lease_message, signature_checks, lease_signed, lease_body, lease_reply, lease_request, is_current,
  ensure_lease,
}

module _ ⦃J : Json⦄ ⦃K : Crypto⦄ where
  open J use {Value, get, as_str, as_u64}
  open K use {hex_decode, verify}

  -- The client holds a lease that runs, or has just taken one that the ledger signed for the device.
  abbrev pub Leased : ℕ → LedgerClient → LedgerClient → Type 0
  Leased now self self' =
      ((exp : ℕ) × (self.lease_expires_at ≡ some exp) × (now < exp) × (self' ≡ self))
      ⊎ ((exp : ℕ) × (sig_hex : String) × (signature_checks self.ledger_pub_key
              (lease_message self.device_id exp) (hex_decode sig_hex)
            ≡ true)
          × (self' ≡ record self { lease_expires_at = some exp }))

  -- What a call of `ensure_lease` may do, by its result.
  abbrev pub LeaseResult : ℕ → LedgerClient → Result Unit String × LedgerClient → Type 0
  LeaseResult now self (ok u, self') = Leased now self self'
  LeaseResult now self (err e, self') = self' ≡ self

  lease_signed-LeaseResult :
      (now : ℕ) (exp : Option ℕ) (sig : Option String) (self : LedgerClient)
      → LeaseResult now self (lease_signed exp sig self)
  unfolding lease_signed
  lease_signed-LeaseResult now none sig self = refl
  lease_signed-LeaseResult now (some exp) none self = refl
  lease_signed-LeaseResult now (some exp) (some sig) self =
      elim (Bool-cases (
        signature_checks self.ledger_pub_key (lease_message self.device_id exp) (hex_decode sig))) [
          | inl e ↦ rw e (inr (exp, sig, e, refl))
          | inr e ↦ rw e refl
        ]

  lease_body-LeaseResult :
      (now : ℕ) (body : Option Value) (self : LedgerClient)
      → LeaseResult now self (lease_body body self)
  unfolding lease_body
  lease_body-LeaseResult now none self = refl
  lease_body-LeaseResult now (some json) self =
      lease_signed-LeaseResult now (and_then (get json "expires_at") as_u64)
        (and_then (get json "lease_signature") as_str) self

  lease_reply-LeaseResult :
      (now : ℕ) (reply : Reply) (self : LedgerClient)
      → LeaseResult now self (lease_reply reply self)
  unfolding lease_reply
  lease_reply-LeaseResult now network_error self = refl
  lease_reply-LeaseResult now (response r) self = elim (Bool-cases r.is_success) [
    | inl e ↦ rw e (lease_body-LeaseResult now r.body self)
    | inr e ↦ elim (Bool-cases (nat_eq r.status 401 || nat_eq r.status 403)) [
      | inl h ↦ rw (e, h) refl
      | inr h ↦ rw (e, h) refl
    ]
  ]

  -- The result of a call, without the reply that a new lease came in.
  pub ensure_lease-LeaseResult :
      (post : String → Value → Reply) (now : ℕ) (self : LedgerClient)
      → LeaseResult now self (ensure_lease post now self)
  unfolding ensure_lease
  ensure_lease-LeaseResult post now self =
      elim (Bool-cases (is_current now self.lease_expires_at)) [
        | inl e ↦ rw e (inl (current self.lease_expires_at refl e))
        | inr e ↦ rw e (
            lease_reply-LeaseResult now
              (post (self.ledger_url ◇ "/lease") (lease_request self.device_id)) self)
      ]
    where
      current :
          (lease : Option ℕ)
          → self.lease_expires_at ≡ lease
          → is_current now lease ≡ true
          → (exp : ℕ) × (self.lease_expires_at ≡ some exp) × (now < exp) × (self ≡ self)
      current none e h = cc
      current (some exp) e h = (exp, e, ground arith, refl)

  -- A lease call leaves the database alone.
  pub ensure_lease-db :
      (post : String → Value → Reply) (now : ℕ) (self : LedgerClient)
      → (ensure_lease post now self).1.db_conn ≡ self.db_conn
  ensure_lease-db post now self =
      go (ensure_lease post now self).0 (ensure_lease post now self).1
        (ensure_lease-LeaseResult post now self)
    where
      go :
          (r : Result Unit String) (c : LedgerClient)
          → LeaseResult now self (r, c)
          → c.db_conn ≡ self.db_conn
      go (ok u) c (inl (exp, e, l, same)) = ap (λ (x : LedgerClient). x.db_conn) same
      go (ok u) c (inr (exp, sig, v, same)) = ap (λ (x : LedgerClient). x.db_conn) same
      go (err e) c same = ap (λ (x : LedgerClient). x.db_conn) same

  pub Leased-db :
      (now : ℕ) (self client : LedgerClient)
      → Leased now self client
      → client.db_conn ≡ self.db_conn
  Leased-db now self client (inl (exp, e, l, same)) = ap (λ (x : LedgerClient). x.db_conn) same
  Leased-db now self client (inr (exp, sig, v, same)) = ap (λ (x : LedgerClient). x.db_conn) same
