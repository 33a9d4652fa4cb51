-- ===== src/Table/Keys.antt =====
-- The key equalities of the maps whose keys are compared exactly: connection and request numbers,
-- and the paths of listeners and assets.
use mongoose_cpp.Prelude.{ℕ, ◌≡◌, refl, true, arith, ◌==◌, ==_refl, Bytes, bytes_eq, bytes_eq_iff}
use mongoose_cpp.Table.{KeyEq}

pub nat_sym : (a b : ℕ) → (a == b) ≡ true → (b == a) ≡ true
nat_sym a b h = ground arith

pub nat_trans : (a b c : ℕ) → (a == b) ≡ true → (b == c) ≡ true → (a == c) ≡ true
nat_trans a b c h k = ground arith

abbrev pub nat_key : KeyEq ℕ
nat_key = record { beq = ◌==◌; beq_refl = ==_refl; beq_sym = nat_sym; beq_trans = nat_trans }

pub text_refl : (a : Bytes) → bytes_eq a a ≡ true
text_refl a = (bytes_eq_iff a a).1 refl

pub text_sym : (a b : Bytes) → bytes_eq a b ≡ true → bytes_eq b a ≡ true
text_sym a b h = ground (arith, bytes_eq_iff a b, bytes_eq_iff b a)

pub text_trans : (a b c : Bytes) → bytes_eq a b ≡ true → bytes_eq b c ≡ true → bytes_eq a c ≡ true
text_trans a b c h k = ground (arith, bytes_eq_iff a b, bytes_eq_iff b c, bytes_eq_iff a c)

abbrev pub text_key : KeyEq Bytes
text_key = record {
  beq = bytes_eq;
  beq_refl = text_refl;
  beq_sym = text_sym;
  beq_trans = text_trans;
}
