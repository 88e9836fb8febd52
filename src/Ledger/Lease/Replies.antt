-- ===== src/Ledger/Lease/Replies.antt =====
-- Where a new lease comes from: the reply of the ledger to one request.
use autonomous_agent_account.Base.{
  ℕ, ◌≤◌, ◌<◌, String, ◌≡◌, ◌⊎◌, inl, inr, refl, true, false, ◌◇◌, Option, none, some, [], ◌∷◌,
  show, arith, and_then, Result, ok, err, Bool-cases, Option-cases, nat_eq, ◌||◌, length,
}
use autonomous_agent_account.External.Json.{Json}
use autonomous_agent_account.External.Crypto.{Crypto, Bytes}
use autonomous_agent_account.External.Http.{Reply, Response, network_error, response}
use autonomous_agent_account.Ledger.Client.{LedgerClient}
use autonomous_agent_account.Ledger.Lease.{
  lease_message, lease_signed, lease_body, lease_reply, lease_request, is_current, ensure_lease,
}

module _ ⦃J : Json⦄ ⦃K : Crypto⦄ where
  open J use {Value, get, as_str, as_u64, string, object}
  open K use {hex_decode, verify}

  -- A reply of success whose body has the expiry, and a signature over it for the device.
  abbrev pub IsGrant : Reply → LedgerClient → ℕ → Type 0
  IsGrant reply self exp =
      (r : Response) × (json : Value) × (sig_hex : String) × (sig : Bytes) × (reply ≡ response r)
      × (r.is_success ≡ true)
      × (r.body ≡ some json)
      × (and_then (get json "expires_at") as_u64 ≡ some exp)
      × (and_then (get json "lease_signature") as_str ≡ some sig_hex)
      × (hex_decode sig_hex ≡ some sig)
      × (length sig ≡ 64)
      × (verify self.ledger_pub_key ("LEASE:" ◇ (self.device_id ◇ (":" ◇ show exp))) sig ≡ true)

  -- What a call does, by whether the client's lease runs, and then by the reply to its request.
  abbrev pub GrantResult :
      (String → Value → Reply) → ℕ → LedgerClient → Result Unit String × LedgerClient → Type 0
  GrantResult post now self (ok u, self') =
      ((exp : ℕ) × (self.lease_expires_at ≡ some exp) × (now < exp) × (self' ≡ self))
      ⊎ ((exp : ℕ) × IsGrant
            (post (self.ledger_url ◇ "/lease") (object (("device_id", string self.device_id) ∷ [])))
            self exp
          × (self' ≡ record self { lease_expires_at = some exp }))
  GrantResult post now self (err e, self') =
      ((exp : ℕ) → self.lease_expires_at ≡ some exp → exp ≤ now) × (self' ≡ self)

  -- What a reply does, when the client's lease does not run.
  abbrev ReplyResult : Reply → LedgerClient → Result Unit String × LedgerClient → Type 0
  ReplyResult reply self (ok u, self') =
      (exp : ℕ) × IsGrant reply self exp × (self' ≡ record self { lease_expires_at = some exp })
  ReplyResult reply self (err e, self') = self' ≡ self

  module _ (self : LedgerClient) (r : Response) (success : r.is_success ≡ true) (json : Value)
      (body : r.body ≡ some json) where
    signed-ReplyResult :
        (exp : Option ℕ) (sig_hex : Option String)
        → and_then (get json "expires_at") as_u64 ≡ exp
        → and_then (get json "lease_signature") as_str ≡ sig_hex
        → ReplyResult (response r) self (lease_signed exp sig_hex self)
    unfolding lease_signed
    signed-ReplyResult none sig e s = refl
    signed-ReplyResult (some exp) none e s = refl
    signed-ReplyResult (some exp) (some sig_hex) e s = elim (Option-cases (hex_decode sig_hex)) [
      | inl d ↦ rw d refl
      | inr (sig, d) ↦ elim (Bool-cases (nat_eq (length sig) 64)) [
        | inr l ↦ rw (d, l) refl
        | inl l ↦
            elim (Bool-cases (verify self.ledger_pub_key (lease_message self.device_id exp) sig)) [
              | inr v ↦ rw (d, l, v) refl
              | inl v ↦
                  rw (d, l, v)
                    (
                      exp,
                      (r, json, sig_hex, sig, refl, success, body, e, s, d, ground arith, v),
                      refl,
                    )
            ]
      ]
    ]

  body-ReplyResult :
      (self : LedgerClient) (r : Response) (o : Option Value)
      → r.is_success ≡ true
      → r.body ≡ o
      → ReplyResult (response r) self (lease_body o self)
  unfolding lease_body
  body-ReplyResult self r none success body = refl
  body-ReplyResult self r (some json) success body =
      signed-ReplyResult self r success json body (and_then (get json "expires_at") as_u64)
        (and_then (get json "lease_signature") as_str) refl refl

  lease_reply-ReplyResult :
      (reply : Reply) (self : LedgerClient) → ReplyResult reply self (lease_reply reply self)
  unfolding lease_reply
  lease_reply-ReplyResult network_error self = refl
  lease_reply-ReplyResult (response r) self = elim (Bool-cases r.is_success) [
    | inl e ↦ simp e (body-ReplyResult self r r.body e refl)
    | inr e ↦ elim (Bool-cases (nat_eq r.status 401 || nat_eq r.status 403)) [
      | inl h ↦ simp (e, h) refl
      | inr h ↦ simp (e, h) refl
    ]
  ]

  not_running :
      (now : ℕ) (lease : Option ℕ)
      → is_current now lease ≡ false
      → (exp : ℕ) → lease ≡ some exp
      → exp ≤ now
  not_running now none h exp e = cc
  not_running now (some x) h exp e = ground arith

  replied-GrantResult :
      (post : String → Value → Reply) (now : ℕ) (self : LedgerClient) (r : Result Unit String)
      (self' : LedgerClient)
      → is_current now self.lease_expires_at ≡ false
      → ReplyResult
          (post (self.ledger_url ◇ "/lease") (lease_request self.device_id))
          self
          (r, self')
      → GrantResult post now self (r, self')
  replied-GrantResult post now self (ok u) self' old h = inr h
  replied-GrantResult post now self (err e) self' old h =
      (not_running now self.lease_expires_at old, h)

  -- A call of ensure_lease succeeds only if the client's lease runs at that time, and then nothing
  -- changes, or if the reply to the request for this device is a success whose body has an expiry and
  -- a signature of 64 bytes that verifies under the ledger's key for the device and that expiry,
  -- which then is the new lease. It fails only if no lease runs, and then the client is as it was.
  pub ensure_lease-GrantResult :
      (post : String → Value → Reply) (now : ℕ) (self : LedgerClient)
      → GrantResult post now self (ensure_lease post now self)
  unfolding ensure_lease
  ensure_lease-GrantResult post now self =
      elim (Bool-cases (is_current now self.lease_expires_at)) [
        | inl e ↦ rw e (inl (current self.lease_expires_at refl e))
        | inr e ↦
            let request = post (self.ledger_url ◇ "/lease") (lease_request self.device_id) in
            rw e (
              replied-GrantResult post now self (lease_reply request self).0
                (lease_reply request self).1 e (lease_reply-ReplyResult request self))
      ]
    where
      current :
          (lease : Option ℕ)
          → self.lease_expires_at ≡ lease
          → is_current now lease ≡ true
          → (exp : ℕ) × (self.lease_expires_at ≡ some exp) × (now < exp) × (self ≡ self)
      current none e h = cc
      current (some exp) e h = (exp, e, ground arith, refl)
