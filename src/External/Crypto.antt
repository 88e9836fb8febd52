-- ===== src/External/Crypto.antt =====
-- `sha2`, `hex`, `ed25519-dalek`, `aes-gcm` and `uuid`. A byte string is a list of numbers.
use autonomous_agent_account.Base.{ℕ, String, Bool, Option, List, Result}

abbrev pub Bytes : Type 0
Bytes = List ℕ

pub record Crypto : Type 1 where
  pub SigningKey : Type 0
  pub VerifyingKey : Type 0
  pub CipherKey : Type 0
  pub sha256 : String → Bytes
  pub hex_encode : Bytes → String
  pub hex_decode : String → Option Bytes
  pub signing_key : Bytes → SigningKey
  pub verifying_key : Bytes → Option VerifyingKey
  pub cipher_key : Bytes → CipherKey
  pub sign : SigningKey → String → Bytes
  pub verify : VerifyingKey → String → Bytes → Bool
  -- an error comes as its text
  pub encrypt : CipherKey → Bytes → String → Result Bytes String
  -- `Uuid::from_slice(…).unwrap().to_string()` of sixteen bytes
  pub uuid_text : Bytes → String
