-- ===== src/Ledger/Client/Startup.antt =====
-- What a client that `LedgerClient::new` makes has.
use autonomous_agent_account.Base.{
  ℕ, String, ◌≡◌, ◌⊎◌, sym, ◌∙◌, ap, true, Option, none, some, List, nat_eq, length, unwrap_or,
  guard, guard-some, some-injective, and_then-some, arith, eq_iff,
}
use autonomous_agent_account.External.Crypto.{Crypto}
use autonomous_agent_account.Ledger.Database.{Database}
use autonomous_agent_account.Ledger.Client.{is_allowed_url, LedgerClient, new}

-- The ledger is reached over https, or over http at a loopback name.
abbrev pub IsSecure : String → String → Type 0
IsSecure scheme host =
    (scheme ≡ "https")
    ⊎ ((scheme ≡ "http") × ((host ≡ "localhost") ⊎ (host ≡ "127.0.0.1") ⊎ (host ≡ "::1")))

nat_eq-eq : (a b : ℕ) → nat_eq a b ≡ true → a ≡ b
nat_eq-eq a b h = ground arith

is_allowed_url-IsSecure :
    (scheme host : String) → is_allowed_url scheme host ≡ true → IsSecure scheme host
is_allowed_url-IsSecure scheme host h = ground (
  arith,
  eq_iff scheme "https",
  eq_iff scheme "http",
  eq_iff host "localhost",
  eq_iff host "127.0.0.1",
  eq_iff host "::1",
)

module _ ⦃K : Crypto⦄ where
  open K use {hex_decode, verifying_key}

  module _ (var : String → Option String) (parse_url : String → Option (String × Option String))
      (open_db : String → Option Database) where
    -- The process starts only with a ledger URL that is https, or http at a loopback name, with a
    -- ledger key of 32 bytes from the environment, and over the database at the configured path; it
    -- then holds no lease.
    pub new-IsSecure :
        (client : LedgerClient)
        → new var parse_url open_db ≡ some client
        → (scheme : String) × (host : Option String) × (key_hex path : String) × (key_bytes : List
            ℕ)
          × (parse_url client.ledger_url ≡ some (scheme, host))
          × IsSecure scheme (unwrap_or host "")
          × (var "LEDGER_PUBLIC_KEY" ≡ some key_hex)
          × (hex_decode key_hex ≡ some key_bytes)
          × (length key_bytes ≡ 32)
          × (verifying_key key_bytes ≡ some client.ledger_pub_key)
          × (var "ACCOUNTABILITY_QUEUE_DB_PATH" ≡ some path)
          × (open_db path ≡ some client.db_conn)
          × (client.lease_expires_at ≡ none)
    unfolding new
    new-IsSecure client h =
        let (private_hex, a, h1) = and_then-some (var "ACCOUNTABILITY_PRIVATE_KEY") _ client h in
        let (private_bytes, b, h2) = and_then-some (hex_decode private_hex) _ client h1 in
        let (u, c, h3) = and_then-some (guard (nat_eq (length private_bytes) 32)) _ client h2 in
        let url = unwrap_or (var "LEDGER_URL") "http://localhost:8000" in
        let (parsed, d, h4) = and_then-some (parse_url url) _ client h3 in
        let (u', e, h5) =
          and_then-some (guard (is_allowed_url parsed.0 (unwrap_or parsed.1 ""))) _ client h4 in
        let (ledger_hex, f, h6) = and_then-some (var "LEDGER_PUBLIC_KEY") _ client h5 in
        let (ledger_bytes, g, h7) = and_then-some (hex_decode ledger_hex) _ client h6 in
        let (u'', i, h8) = and_then-some (guard (nat_eq (length ledger_bytes) 32)) _ client h7 in
        let (ledger_key, j, h9) = and_then-some (verifying_key ledger_bytes) _ client h8 in
        let (path, k, h10) = and_then-some (var "ACCOUNTABILITY_QUEUE_DB_PATH") _ client h9 in
        let (enc_hex, l, h11) = and_then-some (var "ACCOUNTABILITY_ENCRYPTION_KEY") _ client h10 in
        let (enc_bytes, m, h12) = and_then-some (hex_decode enc_hex) _ client h11 in
        let (v, n, h13) = and_then-some (guard (nat_eq (length enc_bytes) 32)) _ client h12 in
        let (conn, o, h14) = and_then-some (open_db path) _ client h13 in
        let made : LedgerClient = record {
          signing_key = K.signing_key private_bytes;
          device_id = unwrap_or (var "ACCOUNTABILITY_DEVICE_ID") "default-device-id";
          ledger_url = url;
          encryption_key = K.cipher_key enc_bytes;
          ledger_pub_key = ledger_key;
          lease_expires_at = none;
          db_conn = conn;
        } in
        let q : made ≡ client = some-injective made client h14 in
        (
          parsed.0,
          parsed.1,
          ledger_hex,
          path,
          ledger_bytes,
          ap (λ (x : LedgerClient). parse_url x.ledger_url) (sym q) ∙ d,
          is_allowed_url-IsSecure parsed.0 (unwrap_or parsed.1 "") (guard-some _ e),
          f,
          g,
          nat_eq-eq (length ledger_bytes) 32 (guard-some _ i),
          j ∙ ap (λ (x : LedgerClient). some x.ledger_pub_key) q,
          k,
          o ∙ ap (λ (x : LedgerClient). some x.db_conn) q,
          ap (λ (x : LedgerClient). x.lease_expires_at) (sym q),
        )
