-- ===== src/Prelude/Int.antt =====
-- The `int` of a status code, over the native numbers: `negsuc n` is -(n + 1).
use Prim.Native.Nat.{ℕ, suc}
use mathlib.Core.List.{◌∷◌}
use mongoose_cpp.Prelude.Text.{Bytes, decimal}

pub data ℤ : Type 0 where
  pos : ℕ → ℤ
  negsuc : ℕ → ℤ

-- `std::format("{}", n)` at an `int`.
abbrev pub decimal_int : ℤ → Bytes
decimal_int (pos n) = decimal n
decimal_int (negsuc n) = b'-' ∷ decimal (suc n)
