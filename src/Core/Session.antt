-- ===== src/Core/Session.antt =====
-- daemon/crates/accountability-core/src/application/proxy.rs: a session, which records a tool call
-- and then applies the policy to the process.
pub mod Laws
use autonomous_agent_account.Base.{ℕ, String, none, ◌◇◌, Result, ok, err}
use autonomous_agent_account.External.Json.{Json}
use autonomous_agent_account.Core.Policy.{Policy}
use autonomous_agent_account.Core.Audit.{AuditEvent, process_spawn, new_allowed}
use autonomous_agent_account.Core.JsonRpc.{ToolCallRequest}
use autonomous_agent_account.Core.Ports.{AuditSink, AuditSinkError, SandboxEnforcer, SandboxError}

pub data ProxyError : Type 0 where
  sandbox : SandboxError → ProxyError
  audit : AuditSinkError → ProxyError

pub record ProxySession (W : Type 0) : Type 0 where
  pub sandbox : SandboxEnforcer W
  pub audit_sink : AuditSink W
  pub policy : Policy

module _ ⦃J : Json⦄ where
  abbrev pub call_event : ℕ → ToolCallRequest → ℕ → AuditEvent
  call_event now tool_call pid =
      new_allowed now pid tool_call.tool_name (process_spawn ("tool_call: " ◇ tool_call.tool_name))
        none

module _ ⦃J : Json⦄ {W : Type 0} where
  pub on_tool_call : ProxySession W → ℕ → ToolCallRequest → ℕ → W → Result Unit ProxyError × W
  on_tool_call self now tool_call pid w =
      let (emitted, w') = self.audit_sink.emit (call_event now tool_call pid) w in
      elim emitted [
        | err e ↦ (err (audit e), w')
        | ok u ↦
            let (applied, w'') = self.sandbox.apply_policy pid self.policy w' in
            elim applied [ err e ↦ (err (ProxyError.sandbox e), w'') | ok u ↦ (ok tt, w'') ]
      ]
