-- ===== src/Core/JsonRpc/Laws.antt =====
-- The messages that `parse` collects, and the requests that hold a tool call.
use autonomous_agent_account.Base.{
  ◌≡◌, ◌↔◌, ◌∙◌, Bool, Option, some, List, [], ◌∷◌, ◌++◌, map, arith, eq_iff, unwrap_or, Result, ok,
  err, Option-cases, inl, inr, if◌then◌else◌,
}
use mathlib.Core.List.{append_assoc, append-nil}
use autonomous_agent_account.External.Json.{Json}
use autonomous_agent_account.Core.JsonRpc.{
  JsonRpcRequest, JsonRpcMessage, ToolCallRequest, invalid_json, parse_from, parse,
  extract_tool_call,
}

module _ ⦃J : Json⦄ {E : Type 0} (is_eof : E → Bool) where
  parse_from-append :
      (got ms : List JsonRpcMessage) (rest : List (Result JsonRpcMessage E))
      → parse_from is_eof got (map ok ms ++ rest) ≡ parse_from is_eof (got ++ ms) rest
  unfolding parse_from
  parse_from-append got [] rest = rw append-nil
  parse_from-append got (m ∷ ms) rest = parse_from-append (got ++ m ∷ []) ms rest ∙ rw append_assoc

  -- The parser returns the messages of a stream in order. It stops at the first error: at the end
  -- of the input it returns what came before, and any other error is the result.
  pub parse-stream :
      (ms : List JsonRpcMessage) (e : E) (rest : List (Result JsonRpcMessage E))
      → (parse is_eof (map ok ms) ≡ ok ms)
        × (parse is_eof (map ok ms ++ err e ∷ rest)
            ≡ (if is_eof e then ok ms else err (invalid_json e)))
  unfolding parse
  parse-stream ms e rest = (
    rw (← append-nil (map ok ms)) (parse_from-append [] ms []),
    parse_from-append [] ms (err e ∷ rest),
  )

module _ ⦃J : Json⦄ where
  open J use {Value, get, as_str, null}

  -- The parameters name a tool, and hold its arguments or none.
  abbrev pub HasCall : Option Value → ToolCallRequest → Type 0
  HasCall params c =
      (p v : Value) × (params ≡ some p)
      × (get p "name" ≡ some v)
      × (as_str v ≡ some c.tool_name)
      × (c.arguments ≡ unwrap_or (get p "arguments") null)

  has_call :
      (msg : JsonRpcRequest) (c : ToolCallRequest)
      → extract_tool_call msg ≡ some c
      → HasCall msg.params c
  unfolding extract_tool_call
  has_call msg c h = elim (Option-cases msg.params) [
    | inl e ↦ ground arith
    | inr (p, e) ↦ elim (Option-cases (get p "name")) [
      | inl e' ↦ ground arith
      | inr (v, e') ↦ (p, v, e, e', ground arith, ground arith)
    ]
  ]

  -- A request holds a tool call exactly when its method is `tools/call` and its parameters name a
  -- tool by a text; absent arguments are null.
  pub extract_tool_call-some_iff :
      (msg : JsonRpcRequest) (c : ToolCallRequest)
      → (extract_tool_call msg ≡ some c) ↔ ((msg.method ≡ "tools/call") × HasCall msg.params c)
  unfolding extract_tool_call
  extract_tool_call-some_iff msg c = (
    λ h. (ground (arith, eq_iff msg.method "tools/call"), has_call msg c h),
    λ (m, (p, v, hp, hv, hs, ha)). ground (arith, eq_iff msg.method "tools/call"),
  )
