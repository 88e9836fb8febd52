-- ===== src/Proxy/Decision.antt =====
-- stdio_proxy.rs, the block that computes `is_irreversible`: whether a tool call needs the ledger,
-- by the policy in the environment variable ACCOUNTABILITY_POLICY_JSON.
pub mod Rules
use autonomous_agent_account.Base.{
  String, Bool, true, false, not, Option, none, some, List, [], ◌∷◌, ◌==◌, and_then, unwrap_or,
  ◌>>=◌, if◌then◌else◌,
}
use autonomous_agent_account.External.Json.{Json}

module _ ⦃J : Json⦄ where
  open J use {Value, from_str, get, as_str, as_array, as_f64, float_lt, object}

  abbrev pub text_at : Value → String → Option String
  text_at v key = and_then (get v key) as_str

  abbrev pub names_tool : Value → String → Bool
  names_tool rule tool = elim (text_at rule "tool") [ none ↦ false | some t ↦ t == tool ]

  -- The nested tests of `bypass_if`: a number among the parameters is below the rule's bound.
  bypass_applies : Value → Option Value → Bool
  bypass_applies rule params =
      unwrap_or
        (do
          cond ← get rule "bypass_condition"
          param_name ← text_at cond "param"
          less_than ← and_then (get cond "less_than") as_f64
          p ← params
          val ← and_then (get p param_name) as_f64
          some (float_lt val less_than))
        false

  -- What the first rule for the tool decides.
  rule_requires : Value → Option Value → Bool
  unfolding bypass_applies
  rule_requires rule params =
      let mode = unwrap_or (text_at rule "mode") "require_ledger" in
      if mode == "bypass"
      then false
      else if mode == "bypass_if"
      then not (bypass_applies rule params)
      else true

  -- The loop over the rules, which stops at the first that names the tool.
  scan_rules : List Value → String → Option Value → Bool → Bool
  unfolding rule_requires
  scan_rules [] tool params requires = requires
  scan_rules (rule ∷ rules) tool params requires =
      if names_tool rule tool
      then rule_requires rule params
      else scan_rules rules tool params requires

  -- The policy, which is `{}` if the variable is not set or is no JSON.
  abbrev pub policy_of : Option String → Value
  policy_of policy_json = unwrap_or (from_str (unwrap_or policy_json "{}")) (object [])

  abbrev pub default_requires : Value → Bool
  default_requires policy =
      unwrap_or (text_at policy "default_mode") "require_ledger" == "require_ledger"

  unfoldable pub is_irreversible : Option String → String → Option Value → Bool
  unfolding scan_rules
  is_irreversible policy_json tool params =
      let policy = policy_of policy_json in
      elim (and_then (get policy "rules") as_array) [
        | none ↦ default_requires policy
        | some rules ↦ scan_rules rules tool params (default_requires policy)
      ]
