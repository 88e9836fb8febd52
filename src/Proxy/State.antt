-- ===== src/Proxy/State.antt =====
-- stdio_proxy.rs: the state that the tasks of the relay share, and the answers that they write.
use autonomous_agent_account.Base.{ℕ, String, Bool, Option, List, [], ◌∷◌, ◌++◌, ◌◇◌, if◌then◌else◌}
use autonomous_agent_account.Base.Int.{ℤ, negsuc}
use autonomous_agent_account.External.Json.{Json}
use autonomous_agent_account.External.Crypto.{Crypto}
use autonomous_agent_account.Ledger.Client.{LedgerClient}

-- The environment variables that the relay reads at each line.
pub record Settings : Type 0 where
  pub policy_json : Option String
  pub device_id : Option String
  pub crash_after_execution : Bool

-- How the handling of one line ends: the loop goes on, it breaks, its task panics, or the process
-- exits.
pub data Flow : Type 0 where
  continue : Flow
  break : Flow
  panic : Flow
  exit : ℕ → Flow

module _ ⦃K : Crypto⦄ where
  -- `child_stdin` and `stdout` are the lines written so far.
  pub record Shared : Type 0 where
    pub pending_calls : List (String × String)
    pub ledger_client : LedgerClient
    pub child_stdin : List String
    pub stdout : List String

  -- A write to the client whose result is dropped.
  abbrev pub say : String → Shared → Shared
  say text s = record s { stdout = s.stdout ++ text ∷ [] }

  -- `child_stdin.write_all`; a failure breaks the loop.
  abbrev pub forward : Bool → String → Shared → Flow × Shared
  forward accepts line s =
      if accepts
      then (continue, record s { child_stdin = s.child_stdin ++ line ∷ [] })
      else (break, s)

module _ ⦃J : Json⦄ where
  open J use {Value, to_string, object, string, int, null}

  -- The two shapes of an error response, each on a line of its own.
  abbrev pub error_line : ℤ → String → Value → String
  error_line code message id =
      to_string (
        object (
          ("jsonrpc", string "2.0")
          ∷ ("error", object (("code", int code) ∷ ("message", string message) ∷ []))
          ∷ ("id", id)
          ∷ []))
      ◇ "\n"

  abbrev pub denial_line : Value → ℤ → String → String
  denial_line id code message =
      to_string (
        object (
          ("jsonrpc", string "2.0")
          ∷ ("id", id)
          ∷ ("error", object (("code", int code) ∷ ("message", string message) ∷ []))
          ∷ []))
      ◇ "\n"

  -- The messages that refuse a line, before the call or at it.
  abbrev pub batch_error : String
  batch_error = error_line (negsuc 32599) "JSON-RPC batches are unsupported" null

  abbrev pub missing_id_error : String
  missing_id_error =
      error_line (negsuc 32599) "JSON-RPC notifications (missing ID) are unsupported for tool calls"
        null

  abbrev pub in_flight_error : String → String
  in_flight_error id =
      error_line (negsuc 31999)
        "Duplicate/in-flight JSON-RPC request ID blocked by accountability proxy." (string id)

  abbrev pub duplicate_error : String → String
  duplicate_error id =
      error_line (negsuc 31999)
        "Duplicate request blocked by accountability proxy idempotency layer." (string id)

  abbrev pub denied_error : Value → String → String
  denied_error id e = denial_line id (negsuc 31999) ("Accountability proxy denied execution: " ◇ e)
