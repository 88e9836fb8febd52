-- ===== src/Ledger/Client.antt =====
-- `LedgerClient` of ledger_client.rs and its construction from the environment of the process.
pub mod Startup
use autonomous_agent_account.Base.{
  ℕ, String, Bool, ◌||◌, Option, none, some, ◌==◌, nat_eq, length, unwrap_or, guard, ◌>>=◌, ◌>>◌,
  if◌then◌else◌,
}
use autonomous_agent_account.External.Crypto.{Crypto}
use autonomous_agent_account.Ledger.Database.{Database}

-- `LEDGER_URL` may be plain http on the loopback names only.
abbrev pub is_allowed_url : String → String → Bool
is_allowed_url scheme host =
    if scheme == "http"
    then host == "localhost" || host == "127.0.0.1" || host == "::1"
    else scheme == "https"

module _ ⦃K : Crypto⦄ where
  open K use {
    SigningKey, VerifyingKey, CipherKey, hex_decode, signing_key, verifying_key, cipher_key,
  }

  -- The HTTP client is the argument `post` of the methods that send.
  pub record LedgerClient : Type 0 where
    pub signing_key : SigningKey
    pub device_id : String
    pub ledger_url : String
    pub encryption_key : CipherKey
    pub ledger_pub_key : VerifyingKey
    pub lease_expires_at : Option ℕ
    pub db_conn : Database

  -- `LedgerClient::new`. `var` reads the environment, `parse_url` is the scheme and the host that
  -- the `url` crate finds, and `open_db` opens the file and makes the tables. `none` is a panic.
  unfoldable pub new :
      (String → Option String)
      → (String → Option (String × Option String))
      → (String → Option Database)
      → Option LedgerClient
  new var parse_url open_db = do
    private_key_hex ← var "ACCOUNTABILITY_PRIVATE_KEY"
    private_key_bytes ← hex_decode private_key_hex
    guard (nat_eq (length private_key_bytes) 32)
    let device = unwrap_or (var "ACCOUNTABILITY_DEVICE_ID") "default-device-id"
    let url = unwrap_or (var "LEDGER_URL") "http://localhost:8000"
    parsed ← parse_url url
    guard (is_allowed_url parsed.0 (unwrap_or parsed.1 ""))
    ledger_hex ← var "LEDGER_PUBLIC_KEY"
    ledger_bytes ← hex_decode ledger_hex
    guard (nat_eq (length ledger_bytes) 32)
    ledger_key ← verifying_key ledger_bytes
    queue_db_path ← var "ACCOUNTABILITY_QUEUE_DB_PATH"
    encryption_key_hex ← var "ACCOUNTABILITY_ENCRYPTION_KEY"
    encryption_key_bytes ← hex_decode encryption_key_hex
    guard (nat_eq (length encryption_key_bytes) 32)
    conn ← open_db queue_db_path
    some (record {
      signing_key = signing_key private_key_bytes;
      device_id = device;
      ledger_url = url;
      encryption_key = cipher_key encryption_key_bytes;
      ledger_pub_key = ledger_key;
      lease_expires_at = none;
      db_conn = conn;
    })
