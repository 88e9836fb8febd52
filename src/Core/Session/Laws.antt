-- ===== src/Core/Session/Laws.antt =====
-- The order of the two effects of `on_tool_call`, and what it needs to succeed.
use autonomous_agent_account.Base.{ℕ, ◌≡◌, ◌↔◌, ◌⊎◌, inl, inr, refl, arith, Result, ok, err}
use autonomous_agent_account.External.Json.{Json}
use autonomous_agent_account.Core.JsonRpc.{ToolCallRequest}
use autonomous_agent_account.Core.Ports.{AuditSinkError}
use autonomous_agent_account.Core.Session.{ProxySession, audit, call_event, on_tool_call}

module _ ⦃J : Json⦄ {W : Type 0} (self : ProxySession W) (now : ℕ) (call : ToolCallRequest)
    (pid : ℕ) (w : W) where
  abbrev emitted : Result Unit AuditSinkError × W
  emitted = self.audit_sink.emit (call_event now call pid) w

  -- A tool call succeeds exactly when its event was recorded and the policy was then applied to
  -- the world that the recording left; when the recording fails, the sandbox is not asked and the
  -- call fails with the sink's error.
  pub on_tool_call-ok_iff :
      (((on_tool_call self now call pid w).0 ≡ ok tt)
        ↔ ((emitted.0 ≡ ok tt) × ((self.sandbox.apply_policy pid self.policy emitted.1).0 ≡ ok tt)))
      × ((emitted.0 ≡ ok tt)
          ⊎ ((e : AuditSinkError) × (emitted.0 ≡ err e)
              × (on_tool_call self now call pid w ≡ (err (audit e), emitted.1))))
  unfolding on_tool_call
  on_tool_call-ok_iff = (
    ground arith,
    elim (result emitted.0) [ inl e ↦ inl e | inr (e, h) ↦ inr (e, h, ground arith) ],
  )
    where
      result : (r : Result Unit AuditSinkError) → (r ≡ ok tt) ⊎ ((e : AuditSinkError) × (r ≡ err e))
      result (ok u) = inl refl
      result (err e) = inr (e, refl)
