-- ===== src/Core/JsonRpc.antt =====
-- daemon/crates/accountability-core/src/domain/jsonrpc.rs: messages, the parser's loop over the
-- results of serde's stream, and the tool call in a request.
pub mod Laws
use autonomous_agent_account.Base.{
  String, Bool, Option, none, some, List, [], ◌∷◌, ◌++◌, ◌==◌, and_then, unwrap_or, Result, ok, err,
  if◌then◌else◌,
}
use autonomous_agent_account.External.Json.{Json}

module _ ⦃J : Json⦄ where
  open J use {Value, get, as_str, null}

  pub record JsonRpcRequest : Type 0 where
    pub jsonrpc : String
    pub id : Option Value
    pub method : String
    pub params : Option Value

  pub data JsonRpcMessage : Type 0 where
    request : JsonRpcRequest → JsonRpcMessage
    response : Value → JsonRpcMessage
    notification : Value → JsonRpcMessage

  pub record ToolCallRequest : Type 0 where
    pub tool_name : String
    pub arguments : Value

  pub data ParseError (E : Type 0) : Type 0 where
    invalid_json : E → ParseError E
    not_tool_call : ParseError E

  -- One round of the loop for each result of the stream; `is_eof` is serde's.
  module _ {E : Type 0} (is_eof : E → Bool) where
    parse_from :
        List JsonRpcMessage
        → List (Result JsonRpcMessage E)
        → Result (List JsonRpcMessage) (ParseError E)
    parse_from messages [] = ok messages
    parse_from messages (ok msg ∷ stream) = parse_from (messages ++ msg ∷ []) stream
    parse_from messages (err e ∷ stream) = if is_eof e then ok messages else err (invalid_json e)

    pub parse : List (Result JsonRpcMessage E) → Result (List JsonRpcMessage) (ParseError E)
    unfolding parse_from
    parse stream = parse_from [] stream

  pub extract_tool_call : JsonRpcRequest → Option ToolCallRequest
  extract_tool_call msg =
      if msg.method == "tools/call"
      then and_then msg.params (λ params. and_then (and_then (get params "name") as_str) (λ name.
        some (record { tool_name = name; arguments = unwrap_or (get params "arguments") null })))
      else none
