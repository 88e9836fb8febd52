-- ===== src/Base/Int.antt =====
-- Signed integers: an `i64` of a JSON number or of a ledger timestamp.
use Prim.Native.String.{◌++◌}
use autonomous_agent_account.Base.{ℕ, suc, ◌-◌, ◌%◌, ◌^◌, String, show}

-- `negsuc n` is -(n + 1).
pub data ℤ : Type 0 where
  pos : ℕ → ℤ
  negsuc : ℕ → ℤ

-- `{}` of a signed integer.
unfoldable pub show_int : ℤ → String
unfolding show
show_int (pos n) = show n
show_int (negsuc n) = "-" ++ show (suc n)

-- `ts as u64`: a negative number wraps.
abbrev pub to_u64 : ℤ → ℕ
to_u64 (pos n) = n
to_u64 (negsuc n) = 2 ^ 64 - suc n % 2 ^ 64
