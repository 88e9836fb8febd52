-- ===== src/Proxy/Tasks/Reads.antt =====
-- What the task of the client is after it has read a line.
use autonomous_agent_account.Base.{
  String, ◌≡◌, inl, inr, refl, sym, subst, true, false, ◌||◌, none, some, ◌==◌, Bool-cases,
  Option-cases,
}
use autonomous_agent_account.External.Json.{Json}
use autonomous_agent_account.External.Crypto.{Crypto}
use autonomous_agent_account.Proxy.Decision.{is_irreversible}
use autonomous_agent_account.Proxy.Request.{is_tool_call, req_id_str, tool_name_str, stable_nonce}
use autonomous_agent_account.Proxy.State.{Settings, missing_id_error, batch_error}
use autonomous_agent_account.Proxy.Client.Effect.{object_nonce, call_nonce}
use autonomous_agent_account.Proxy.Actions.Client.{
  ClientTask, answering, passing, checking, read_object, read_value, read_line,
}

module _ ⦃J : Json⦄ ⦃K : Crypto⦄ (set : Settings) where
  open J use {Value, Object, from_str, as_object, is_array, map_get}

  -- What a task is after the read of a line: it refuses, or the line is no call under the ledger, or
  -- the call has yet to be checked.
  abbrev pub IsRead : ClientTask → Type 0
  IsRead (answering text) = Unit
  IsRead (passing line) = call_nonce set line ≡ none
  IsRead (checking line req) = call_nonce set line ≡ some (stable_nonce set.device_id req)
  IsRead _ = ⊥

  read_object-IsRead :
      (line : String) (req : Object)
      → call_nonce set line ≡ object_nonce set req
      → IsRead (read_object set line req)
  unfolding read_object
  read_object-IsRead line req h = elim (Bool-cases (is_tool_call req)) [
    | inr e ↦ subst IsRead (sym (passes e)) (rw e at h)
    | inl e ↦
        elim (Bool-cases
          (is_irreversible set.policy_json (tool_name_str req) (map_get req "params"))) [
            | inr f ↦ subst IsRead (sym (bypasses e f)) (rw (e, f) at h)
            | inl f ↦ elim (Bool-cases (req_id_str req == "" || req_id_str req == "null")) [
              | inl g ↦ subst IsRead (sym (refuses e f g)) tt
              | inr g ↦ subst IsRead (sym (checks e f g)) (rw (e, f) at h)
            ]
          ]
  ]
    where
      passes : is_tool_call req ≡ false → read_object set line req ≡ passing line
      passes e = rw (e, read_object) refl

      bypasses :
          is_tool_call req ≡ true
          → is_irreversible set.policy_json (tool_name_str req) (map_get req "params") ≡ false
          → read_object set line req ≡ passing line
      bypasses e f = rw (e, f, read_object) refl

      refuses :
          is_tool_call req ≡ true
          → is_irreversible set.policy_json (tool_name_str req) (map_get req "params") ≡ true
          → (req_id_str req == "" || req_id_str req == "null") ≡ true
          → read_object set line req ≡ answering missing_id_error
      refuses e f g = rw (e, f, g, read_object) refl

      checks :
          is_tool_call req ≡ true
          → is_irreversible set.policy_json (tool_name_str req) (map_get req "params") ≡ true
          → (req_id_str req == "" || req_id_str req == "null") ≡ false
          → read_object set line req ≡ checking line req
      checks e f g = rw (e, f, g, read_object) refl

  pub read_line-IsRead : (line : String) → IsRead (read_line set line)
  unfolding read_line read_value call_nonce
  read_line-IsRead line = elim (Option-cases (from_str line)) [
    | inl e ↦ subst IsRead (sym (unparsed e)) (rw (e, call_nonce) refl)
    | inr (val, e) ↦ elim (Option-cases (as_object val)) [
      | inr (req, f) ↦
          subst IsRead (sym (parsed val req e f))
            (read_object-IsRead line req (rw (e, f, call_nonce) refl))
      | inl f ↦ elim (Bool-cases (is_array val)) [
        | inl g ↦ subst IsRead (sym (batch val e f g)) tt
        | inr g ↦ subst IsRead (sym (other val e f g)) (rw (e, f, call_nonce) refl)
      ]
    ]
  ]
    where
      unparsed : from_str line ≡ none → read_line set line ≡ passing line
      unparsed e = rw (e, read_line) refl

      parsed :
          (val : Value) (req : Object)
          → from_str line ≡ some val
          → as_object val ≡ some req
          → read_line set line ≡ read_object set line req
      parsed val req e f = rw (e, f, read_line, read_value) refl

      batch :
          (val : Value)
          → from_str line ≡ some val
          → as_object val ≡ none
          → is_array val ≡ true
          → read_line set line ≡ answering batch_error
      batch val e f g = rw (e, f, g, read_line, read_value) refl

      other :
          (val : Value)
          → from_str line ≡ some val
          → as_object val ≡ none
          → is_array val ≡ false
          → read_line set line ≡ passing line
      other val e f g = rw (e, f, g, read_line, read_value) refl
