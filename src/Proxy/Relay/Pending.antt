-- ===== src/Proxy/Relay/Pending.antt =====
-- How often a nonce is pending.
use autonomous_agent_account.Base.{
  ℕ, ◌+◌, ◌≤◌, String, ◌≡◌, Bool, some, List, [], ◌∷◌, ◌==◌, count, lookup, remove, insert, arith,
  if◌then◌else◌, Bool-cases, inl, inr,
}

abbrev pub holds : String → String × String → Bool
holds nonce e = e.1 == nonce

-- The pending calls under a nonce.
abbrev pub in_flight : String → List (String × String) → ℕ
in_flight nonce pending = count (holds nonce) pending

abbrev pub unit_if : Bool → ℕ
unit_if b = if b then 1 else 0

in_flight-remove-le :
    (nonce id : String) (m : List (String × String))
    → in_flight nonce (remove id m) ≤ in_flight nonce m
in_flight-remove-le nonce id [] = omega arith
in_flight-remove-le nonce id ((j, v) ∷ m) = ground (arith, in_flight-remove-le nonce id m)

pub in_flight-insert :
    (nonce id v : String) (m : List (String × String))
    → in_flight nonce (insert id v m) ≤ in_flight nonce m + unit_if (v == nonce)
in_flight-insert nonce id v m = ground (arith, in_flight-remove-le nonce id m)

-- Removing a call that is pending takes its nonce away once at least.
pub in_flight-remove :
    (nonce id v : String) (m : List (String × String))
    → lookup id m ≡ some v
    → in_flight nonce (remove id m) + unit_if (v == nonce) ≤ in_flight nonce m
in_flight-remove nonce id v [] h = ground arith
in_flight-remove nonce id v ((j, w) ∷ m) h = elim (Bool-cases (j == id)) [
  | inl e ↦ ground (arith, in_flight-remove-le nonce id m)
  | inr e ↦ ground (arith, in_flight-remove nonce id v m)
]
