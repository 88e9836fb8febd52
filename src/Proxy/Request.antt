-- ===== src/Proxy/Request.antt =====
-- stdio_proxy.rs: what the relay reads from a line of the client, and the nonce of a tool call.
pub mod Nonce
use autonomous_agent_account.Base.{
  String, Bool, false, Option, none, some, List, [], ◌∷◌, ◌++◌, ◌◇◌, ◌==◌, take, and_then,
  unwrap_or,
}
use autonomous_agent_account.External.Json.{Json}
use autonomous_agent_account.External.Crypto.{Crypto}

module _ ⦃J : Json⦄ where
  open J use {Value, Object, map_get, get, as_str, to_string, map_to_string}

  -- `has_tool_call`
  abbrev pub is_tool_call : Object → Bool
  is_tool_call req = elim (and_then (map_get req "method") as_str) [
    | none ↦ false
    | some m ↦ m == "tools/call"
  ]

  -- `req_id_str`: the text of the id, or the empty text if there is none.
  abbrev pub req_id_str : Object → String
  req_id_str req = elim (map_get req "id") [ none ↦ "" | some id ↦ to_string id ]

  -- `tool_name_str`: the empty text if the name is missing or is no text.
  abbrev pub tool_name_str : Object → String
  tool_name_str req =
      unwrap_or (and_then (and_then (map_get req "params") (λ p. get p "name")) as_str) ""

  abbrev pub entry : String → Object → List (String × Value)
  entry key req = elim (map_get req key) [ none ↦ [] | some v ↦ (key, v) ∷ [] ]

  -- The BTreeMap of the id, the method and the parameters, in key order.
  abbrev pub semantic_map : Object → List (String × Value)
  semantic_map req = entry "id" req ++ (entry "method" req ++ entry "params" req)

module _ ⦃J : Json⦄ ⦃K : Crypto⦄ where
  open J use {Object, map_to_string}
  open K use {sha256, uuid_text}

  -- The nonce under which a tool call is recorded: the first sixteen bytes of a hash.
  unfoldable pub stable_nonce : Option String → Object → String
  stable_nonce device_id req =
      uuid_text (take 16 (sha256 (unwrap_or device_id "" ◇ map_to_string (semantic_map req))))
