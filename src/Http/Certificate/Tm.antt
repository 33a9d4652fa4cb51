-- ===== src/Http/Certificate/Tm.antt =====
-- The calendar time of the C library.
use mongoose_cpp.Prelude.{ℕ, ◌+◌, ◌-◌, ltb, ℤ, pos, negsuc, if◌then◌else◌}

-- The fields of `struct tm` that the code fills in or a library does.
pub record Tm : Type 0 where
  pub tm_year : ℤ
  pub tm_mon : ℤ
  pub tm_mday : ℤ
  pub tm_hour : ℤ
  pub tm_min : ℤ
  pub tm_sec : ℤ

-- `n - k` on `int`, where `k` is a literal of the code.
infixl 60 ◌-ℤ◌
abbrev pub ◌-ℤ◌ : ℤ → ℕ → ℤ
pos n -ℤ k = if ltb n k then negsuc (k - n - 1) else pos (n - k)
negsuc n -ℤ k = negsuc (n + k)
