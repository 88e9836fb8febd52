-- ===== src/Core/Ports.antt =====
-- daemon/crates/accountability-core/src/ports/: the traits of the core, each as a record of its
-- methods. A method may change the world `W` outside the process.
use autonomous_agent_account.Base.{ℕ, String, Result}
use autonomous_agent_account.External.Json.{Json}
use autonomous_agent_account.Core.Policy.{Policy}
use autonomous_agent_account.Core.Audit.{AuditEvent}
use autonomous_agent_account.Core.JsonRpc.{JsonRpcMessage}

pub data AuditSinkError : Type 0 where
  write_failed : String → AuditSinkError

pub record AuditSink (W : Type 0) : Type 0 where
  pub emit : AuditEvent → W → Result Unit AuditSinkError × W

pub data InterceptError (IoError : Type 0) : Type 0 where
  io : IoError → InterceptError IoError
  parse : String → InterceptError IoError

pub record StdioInterceptor (J : Json) (IoError W : Type 0) : Type 0 where
  pub on_client_message : JsonRpcMessage ⦃J = J⦄ → W → Result Unit (InterceptError IoError) × W
  pub on_server_message : JsonRpcMessage ⦃J = J⦄ → W → Result Unit (InterceptError IoError) × W

pub data SandboxError : Type 0 where
  apply_failed : String → SandboxError
  revoke_failed : String → SandboxError
  unsupported : String → SandboxError

pub record SandboxEnforcer (W : Type 0) : Type 0 where
  pub apply_policy : ℕ → Policy → W → Result Unit SandboxError × W
  pub revoke : ℕ → W → Result Unit SandboxError × W
  pub backend_name : String
