-- ===== src/Ledger/Lease.antt =====
-- `has_nonce` and `ensure_lease` of ledger_client.rs. `post` is the HTTP client: it answers a URL
-- and a JSON body.
pub mod Grants
pub mod Replies
use autonomous_agent_account.Base.{
  ℕ, String, Bool, true, false, ◌||◌, ◌&&◌, Option, none, some, List, [], ◌∷◌, ◌◇◌, nat_eq, ltb,
  length, show, and_then, Result, ok, err, if◌then◌else◌,
}
use autonomous_agent_account.External.Json.{Json}
use autonomous_agent_account.External.Crypto.{Crypto, Bytes}
use autonomous_agent_account.External.Http.{Reply, Response, network_error, response}
use autonomous_agent_account.Ledger.Database.{select_nonce}
use autonomous_agent_account.Ledger.Client.{LedgerClient}

module _ ⦃K : Crypto⦄ where
  -- `readable` is whether SQLite prepared and ran the query.
  unfoldable pub has_nonce : Bool → String → LedgerClient → Bool
  unfolding select_nonce
  has_nonce readable nonce self = readable && select_nonce nonce self.db_conn

module _ ⦃J : Json⦄ ⦃K : Crypto⦄ where
  open J use {Value, get, as_str, as_u64, string, object}
  open K use {VerifyingKey, hex_decode, verify}

  abbrev pub lease_message : String → ℕ → String
  lease_message device exp = "LEASE:" ◇ (device ◇ (":" ◇ show exp))

  -- The signature is 64 bytes of hex and verifies under the ledger's key.
  abbrev pub signature_checks : VerifyingKey → String → Option Bytes → Bool
  signature_checks key message none = false
  signature_checks key message (some sig) = nat_eq (length sig) 64 && verify key message sig

  -- The two fields of a lease response.
  lease_signed : Option ℕ → Option String → LedgerClient → Result Unit String × LedgerClient
  lease_signed (some exp) (some sig_hex) self =
      if signature_checks self.ledger_pub_key (lease_message self.device_id exp)
        (hex_decode sig_hex)
      then (ok tt, record self { lease_expires_at = some exp })
      else (err "Invalid lease signature cryptographically", self)
  lease_signed (some exp) none self = (err "Invalid lease response format", self)
  lease_signed none sig self = (err "Invalid lease response format", self)

  lease_body : Option Value → LedgerClient → Result Unit String × LedgerClient
  unfolding lease_signed
  lease_body none self = (err "Invalid lease response format", self)
  lease_body (some json) self =
      lease_signed (and_then (get json "expires_at") as_u64)
        (and_then (get json "lease_signature") as_str) self

  lease_reply : Reply → LedgerClient → Result Unit String × LedgerClient
  unfolding lease_body
  lease_reply network_error self =
      (err "Accountability proxy denied execution. Ledger returned: Network Error", self)
  lease_reply (response r) self =
      if r.is_success
      then lease_body r.body self
      else if nat_eq r.status 401 || nat_eq r.status 403
      then (err "Kill-switch engaged. Agent authorization revoked.", self)
      else (err ("Accountability proxy denied execution. Ledger returned: " ◇ show r.status), self)

  abbrev pub lease_request : String → Value
  lease_request device = object (("device_id", string device) ∷ [])

  abbrev pub is_current : ℕ → Option ℕ → Bool
  is_current now none = false
  is_current now (some exp) = ltb now exp

  unfoldable pub ensure_lease :
      (String → Value → Reply) → ℕ → LedgerClient → Result Unit String × LedgerClient
  unfolding lease_reply
  ensure_lease post now self =
      if is_current now self.lease_expires_at
      then (ok tt, self)
      else lease_reply (post (self.ledger_url ◇ "/lease") (lease_request self.device_id)) self
