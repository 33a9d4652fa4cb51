-- ===== src/Http/Headers/Key.antt =====
-- The hash and the key equality of the header map: case_insensitive_hash and
-- case_insensitive_equality of include/mgxx/http/headers.hpp.
use Prim.Native.Nat.{bit_xor}
use mongoose_cpp.Table.{KeyEq}
use mongoose_cpp.Prelude.{
  ◌+◌, ◌*◌, ◌^◌, ◌%◌, ◌≡◌, refl, sym, ap, ◌∙◌, ◌↔◌, Bool, true, false, ◌&&◌, ℕ, [], ◌∷◌, map, arith,
  leb, ◌==◌, if◌then◌else◌, length, Bytes,
}

-- `std::tolower` in the "C" locale.
unfoldable pub to_lower : ℕ → ℕ
to_lower c = if leb b'A' c && leb c b'Z' then c + 32 else c

-- `std::equal` over the range of `lhs`; the lengths are compared before it is called.
unfoldable pub equal_lower : Bytes → Bytes → Bool
equal_lower [] rhs = true
equal_lower (l ∷ lhs) [] = false
equal_lower (l ∷ lhs) (r ∷ rhs) = to_lower l == to_lower r && equal_lower lhs rhs

unfoldable pub is_equal : Bytes → Bytes → Bool
unfolding equal_lower
is_equal lhs rhs = length lhs == length rhs && equal_lower lhs rhs

-- `size_t` arithmetic is modulo 2^64.
unfoldable pub hash_loop : ℕ → Bytes → ℕ
hash_loop hash [] = hash
hash_loop hash (c ∷ key) = hash_loop (bit_xor hash (to_lower c) * 1099511628211 % 2 ^ 64) key

unfoldable pub hash_key : Bytes → ℕ
unfolding hash_loop
hash_key key = hash_loop 14695981039346656037 key

-- Two names are equal for the map when they are equal in lower case.
pub is_equal_iff : (a b : Bytes) → (is_equal a b ≡ true) ↔ (map to_lower a ≡ map to_lower b)
unfolding is_equal equal_lower
is_equal_iff [] [] = (λ _. refl, λ _. refl)
is_equal_iff [] (y ∷ ys) = (λ h. ground arith, λ h. cc)
is_equal_iff (x ∷ xs) [] = (λ h. ground arith, λ h. cc)
is_equal_iff (x ∷ xs) (y ∷ ys) =
    (λ h. ground (arith, is_equal_iff xs ys), λ h. ground (arith, is_equal_iff xs ys))

is_equal_refl : (a : Bytes) → is_equal a a ≡ true
is_equal_refl a = (is_equal_iff a a).1 refl

is_equal_sym : (a b : Bytes) → is_equal a b ≡ true → is_equal b a ≡ true
is_equal_sym a b h = (is_equal_iff b a).1 (sym ((is_equal_iff a b).0 h))

is_equal_trans : (a b c : Bytes) → is_equal a b ≡ true → is_equal b c ≡ true → is_equal a c ≡ true
is_equal_trans a b c h k = (is_equal_iff a c).1 ((is_equal_iff a b).0 h ∙ (is_equal_iff b c).0 k)

-- The map's key equality.
unfoldable pub name_key : KeyEq Bytes
unfolding is_equal_refl is_equal_sym is_equal_trans
name_key = record {
  beq = is_equal;
  beq_refl = is_equal_refl;
  beq_sym = is_equal_sym;
  beq_trans = is_equal_trans;
}

-- The hash of lower case bytes; the source's hash goes through it.
hash_lower : ℕ → Bytes → ℕ
hash_lower hash [] = hash
hash_lower hash (c ∷ key) = hash_lower (bit_xor hash c * 1099511628211 % 2 ^ 64) key

hash_loop-map : (hash : ℕ) (key : Bytes) → hash_loop hash key ≡ hash_lower hash (map to_lower key)
unfolding hash_loop hash_lower
hash_loop-map hash [] = refl
hash_loop-map hash (c ∷ key) =
    hash_loop-map (bit_xor hash (to_lower c) * 1099511628211 % 2 ^ 64) key

-- Names that the map takes for equal have the same hash, as `std::unordered_map` requires.
hash_key_respects : (a b : Bytes) → is_equal a b ≡ true → hash_key a ≡ hash_key b
unfolding hash_key
hash_key_respects a b h =
    hash_loop-map _ a
    ∙ ap (hash_lower 14695981039346656037) ((is_equal_iff a b).0 h)
    ∙ sym (hash_loop-map _ b)
