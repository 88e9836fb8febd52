-- ===== src/Core/Audit.antt =====
-- daemon/crates/accountability-core/src/domain/audit.rs: audit events. The clock and serde's
-- writer are arguments.
use autonomous_agent_account.Base.{ℕ, String, Option, Result, ok, err}

pub data AuditAction : Type 0 where
  file_read : String → AuditAction
  file_write : String → AuditAction
  network_connect : String → ℕ → AuditAction
  process_spawn : String → AuditAction

pub data AuditResult : Type 0 where
  allowed : AuditResult
  blocked : String → AuditResult

pub record AuditEvent : Type 0 where
  pub timestamp : ℕ
  pub pid : ℕ
  pub tool_name : String
  pub action : AuditAction
  pub result : AuditResult
  pub policy_rule : Option String

unfoldable pub new_blocked : ℕ → ℕ → String → AuditAction → String → Option String → AuditEvent
new_blocked now pid tool action reason rule = record {
  timestamp = now;
  pid = pid;
  tool_name = tool;
  action = action;
  result = blocked reason;
  policy_rule = rule;
}

unfoldable pub new_allowed : ℕ → ℕ → String → AuditAction → Option String → AuditEvent
new_allowed now pid tool action rule = record {
  timestamp = now;
  pid = pid;
  tool_name = tool;
  action = action;
  result = allowed;
  policy_rule = rule;
}

unfoldable pub to_json : {E : Type 0} → (AuditEvent → Result String E) → AuditEvent → String
to_json to_text event = elim (to_text event) [ ok text ↦ text | err e ↦ "{}" ]
