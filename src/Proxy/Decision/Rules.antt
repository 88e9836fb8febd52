-- ===== src/Proxy/Decision/Rules.antt =====
-- When a tool call may bypass the ledger.
use autonomous_agent_account.Base.{
  String, ◌≡◌, ◌⊎◌, inl, inr, refl, ◌∙◌, ap, Bool, true, false, Option, none, some, List, [], ◌∷◌,
  ◌++◌, ◌==◌, and_then, and_then-some, unwrap_or, unwrap_or-true, All, arith, eq_iff, Bool-cases,
  Option-cases,
}
use autonomous_agent_account.External.Json.{Json}
use autonomous_agent_account.Proxy.Decision.{
  text_at, names_tool, bypass_applies, rule_requires, scan_rules, policy_of, default_requires,
  is_irreversible,
}

module _ ⦃J : Json⦄ where
  open J use {Value, from_str, get, as_array, as_f64, float_lt, as_object, map_get, object}

  abbrev pub rules_of : Value → Option (List Value)
  rules_of policy = and_then (get policy "rules") as_array

  -- The rule waives the ledger: it says so, or a number that the parameters have under the name in
  -- its condition is below the condition's bound.
  abbrev pub Waives : Value → Option Value → Type 0
  Waives rule params =
      (text_at rule "mode" ≡ some "bypass")
      ⊎ ((text_at rule "mode" ≡ some "bypass_if")
          × (cond : Value) × (name : String) × (p : Value) × (val bound : J.Float) × (get rule
                "bypass_condition"
              ≡ some cond)
          × (text_at cond "param" ≡ some name)
          × (and_then (get cond "less_than") as_f64 ≡ some bound)
          × (params ≡ some p)
          × (and_then (get p name) as_f64 ≡ some val)
          × (float_lt val bound ≡ true))

  -- The first rule of the list that names the tool, with the rules before it.
  abbrev pub IsFirst : List Value → String → Value → Type 0
  IsFirst rules tool rule =
      (before after : List Value) × (rules ≡ before ++ rule ∷ after)
      × All (λ r. names_tool r tool ≡ false) before
      × (names_tool rule tool ≡ true)

  -- The policy lets the tool past the ledger by its default: no rule names the tool.
  abbrev pub Unruled : Option (List Value) → String → Type 0
  Unruled none tool = Unit
  Unruled (some rules) tool = All (λ r. names_tool r tool ≡ false) rules

  bypass_applies-Waives :
      (rule : Value) (params : Option Value)
      → text_at rule "mode" ≡ some "bypass_if"
      → bypass_applies rule params ≡ true
      → Waives rule params
  unfolding bypass_applies
  bypass_applies-Waives rule params m h =
      let (cond, a, h1) = and_then-some (get rule "bypass_condition") _ true (unwrap_or-true _ h) in
      let (name, b, h2) = and_then-some (text_at cond "param") _ true h1 in
      let (bound, c, h3) = and_then-some (and_then (get cond "less_than") as_f64) _ true h2 in
      let (p, d, h4) = and_then-some params _ true h3 in
      let (val, e, h5) = and_then-some (and_then (get p name) as_f64) _ true h4 in
      inr (m, cond, name, p, val, bound, a, b, c, d, e, ground arith)

  rule_requires-Waives :
      (rule : Value) (params : Option Value) (mode : Option String)
      → text_at rule "mode" ≡ mode
      → rule_requires rule params ≡ false
      → Waives rule params
  unfolding rule_requires
  rule_requires-Waives rule params none m h = let never : true ≡ false = rw m at h in cc
  rule_requires-Waives rule params (some mode) m h = elim (Bool-cases (mode == "bypass")) [
    | inl e ↦ inl (m ∙ ap some ((eq_iff mode "bypass").0 e))
    | inr e ↦ elim (Bool-cases (mode == "bypass_if")) [
      | inl f ↦
          bypass_applies-Waives rule params (m ∙ ap some ((eq_iff mode "bypass_if").0 f))
            (ground arith)
      | inr f ↦ absurd (ground arith)
    ]
  ]

  -- The default mode is there, and is not the ledger.
  abbrev pub ByDefault : Value → Type 0
  ByDefault policy =
      (mode : String) × (text_at policy "default_mode" ≡ some mode)
      × ((mode == "require_ledger") ≡ false)

  -- What a policy that lets a call past the ledger says.
  abbrev pub LetsPast : Value → String → Option Value → Type 0
  LetsPast policy tool params =
      (Unruled (rules_of policy) tool × ByDefault policy)
      ⊎ ((rules : List Value) × (rule : Value) × (rules_of policy ≡ some rules)
          × IsFirst rules tool rule
          × Waives rule params)

  scan_rules-IsFirst :
      (rules : List Value) (tool : String) (params : Option Value) (requires : Bool)
      → scan_rules rules tool params requires ≡ false
      → (All (λ r. names_tool r tool ≡ false) rules × (requires ≡ false))
        ⊎ ((rule : Value) × IsFirst rules tool rule × (rule_requires rule params ≡ false))
  unfolding scan_rules
  scan_rules-IsFirst [] tool params requires h = inl (tt, h)
  scan_rules-IsFirst (rule ∷ rules) tool params requires h =
      elim (Bool-cases (names_tool rule tool)) [
        | inl e ↦ inr (rule, ([], rules, refl, tt, e), rw e at h)
        | inr e ↦ elim (scan_rules-IsFirst rules tool params requires (rw e at h)) [
          | inl (rest, d) ↦ inl ((e, rest), d)
          | inr (r, (before, after, same, others, named), d) ↦
              inr (r, (rule ∷ before, after, ap (λ l. rule ∷ l) same, (e, others), named), d)
        ]
      ]

  default_requires-false :
      (policy : Value) (mode : Option String)
      → text_at policy "default_mode" ≡ mode
      → default_requires policy ≡ false
      → ByDefault policy
  default_requires-false policy none e h =
      let never : ("require_ledger" == "require_ledger") ≡ false = rw e at h in cc
  default_requires-false policy (some m) e h = (m, e, rw e at h)

  -- A tool call goes past the ledger only if the policy says so: by its default when no rule names
  -- the tool, or by the first rule that names it, whose mode is a bypass or whose condition holds of
  -- a number among the parameters.
  pub is_irreversible-false :
      (policy_json : Option String) (tool : String) (params : Option Value)
      → is_irreversible policy_json tool params ≡ false
      → LetsPast (policy_of policy_json) tool params
  unfolding is_irreversible
  is_irreversible-false policy_json tool params h =
      let policy = policy_of policy_json in
      elim (Option-cases (rules_of policy)) [
        | inl e ↦ inl (
          rw e tt,
          default_requires-false policy (text_at policy "default_mode") refl
              (rw (e, is_irreversible) at h),
        )
        | inr (rules, e) ↦
            elim (scan_rules-IsFirst rules tool params (default_requires policy)
              (rw (e, is_irreversible) at h)) [
                | inl (others, d) ↦ inl (
                  rw e others,
                  default_requires-false policy (text_at policy "default_mode") refl d,
                )
                | inr (rule, first, d) ↦ inr (
                  rules,
                  rule,
                  e,
                  first,
                  rule_requires-Waives rule params (text_at rule "mode") refl d,
                )
              ]
      ]

  -- With no policy, or one that is no JSON, every tool call needs the ledger.
  pub is_irreversible-no_policy :
      (policy_json : Option String) (tool : String) (params : Option Value)
      → from_str (unwrap_or policy_json "{}") ≡ none
      → get (object []) "rules" ≡ none
      → get (object []) "default_mode" ≡ none
      → is_irreversible policy_json tool params ≡ true
  unfolding is_irreversible
  is_irreversible-no_policy policy_json tool params h r d =
      let policy = ap (λ o. unwrap_or o (object [])) h in
      let rules = ap rules_of policy ∙ ap (λ o. and_then o as_array) r in
      let by_default =
        ap default_requires policy
        ∙ ap (λ o. unwrap_or (and_then o J.as_str) "require_ledger" == "require_ledger") d in
      rw (rules, by_default, is_irreversible) refl
