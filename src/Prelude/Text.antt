-- ===== src/Prelude/Text.antt =====
-- Text as the bytes of a `std::string` or `std::string_view`.
use Prim.Native.Nat.{ℕ, zero, suc, ◌+◌, ◌/◌, ◌%◌}
use Prim.Native.Char.{code}
use Prim.Native.String.{String}
use mathlib.Core.Path.{◌≡◌, refl}
use mathlib.Core.Logic.{◌↔◌}
use mathlib.Core.Bool.{Bool, true, false, ◌&&◌}
use mathlib.Core.List.{List, [], ◌∷◌}
use native.Mathlib.Omega.{arith}
use mongoose_cpp.Prelude.Tests.{◌==◌, if◌then◌else◌, ltb}

abbrev pub Bytes : Type 0
Bytes = List ℕ

-- The bytes of a literal, all ASCII.
abbrev pub codes : String → Bytes
codes String.[] = []
codes (String.◌∷◌ c s) = code c ∷ codes s

abbrev pub bytes_eq : Bytes → Bytes → Bool
bytes_eq [] [] = true
bytes_eq [] (y ∷ ys) = false
bytes_eq (x ∷ xs) [] = false
bytes_eq (x ∷ xs) (y ∷ ys) = x == y && bytes_eq xs ys

pub bytes_eq_iff : (a b : Bytes) → (bytes_eq a b ≡ true) ↔ (a ≡ b)
bytes_eq_iff [] [] = (λ _. refl, λ _. refl)
bytes_eq_iff [] (y ∷ ys) = (λ h. cc, λ h. cc)
bytes_eq_iff (x ∷ xs) [] = (λ h. cc, λ h. cc)
bytes_eq_iff (x ∷ xs) (y ∷ ys) =
    (λ h. ground (arith, bytes_eq_iff xs ys), λ h. ground (arith, bytes_eq_iff xs ys))

-- What a C library reads from `c_str()`: the bytes before the first zero.
abbrev pub c_str : Bytes → Bytes
c_str [] = []
c_str (c ∷ s) = let rest = c_str s in if c == 0 then [] else c ∷ rest

-- The decimal digits of a number; every step divides by ten, so the number itself is fuel enough.
abbrev pub decimal_loop : ℕ → ℕ → Bytes → Bytes
decimal_loop zero n acc = (b'0' + n % 10) ∷ acc
decimal_loop (suc fuel) n acc =
    let digit = b'0' + n % 10 in
    let rest = decimal_loop fuel (n / 10) (digit ∷ acc) in if ltb n 10 then digit ∷ acc else rest

abbrev pub decimal : ℕ → Bytes
decimal n = decimal_loop n n []
