-- ===== src/Prelude/Lists.antt =====
-- Lists measured and indexed by native numbers, under the library's names.
use Prim.Native.Nat.{ℕ, zero, suc, ◌+◌, ◌<◌, min}
use mathlib.Core.Path.{◌≡◌, refl, ap}
use mathlib.Core.Logic.{◌≢◌, ◌⊎◌, inl, inr}
use mathlib.Core.List.{List, [], ◌∷◌, ◌++◌, map}
use mathlib.Core.Option.{Option, none, some}
use native.Mathlib.Omega.{arith}

module _ {ℓ} {A : Type ℓ} where
  abbrev pub length : List A → ℕ
  length [] = 0
  length (x ∷ xs) = suc (length xs)

  abbrev pub get_elem? : List A → ℕ → Option A
  get_elem? [] i = none
  get_elem? (x ∷ xs) zero = some x
  get_elem? (x ∷ xs) (suc i) = get_elem? xs i

  -- A write out of bounds changes nothing.
  abbrev pub set : List A → ℕ → A → List A
  set [] i v = []
  set (x ∷ xs) zero v = v ∷ xs
  set (x ∷ xs) (suc i) v = x ∷ set xs i v

  abbrev pub take : ℕ → List A → List A
  take zero xs = []
  take (suc n) [] = []
  take (suc n) (x ∷ xs) = x ∷ take n xs

  abbrev pub drop : ℕ → List A → List A
  drop zero xs = xs
  drop (suc n) [] = []
  drop (suc n) (x ∷ xs) = drop n xs

  abbrev pub replicate : ℕ → A → List A
  replicate zero a = []
  replicate (suc n) a = a ∷ replicate n a

  abbrev pub concat : List (List A) → List A
  concat [] = []
  concat (xs ∷ xss) = xs ++ concat xss

  -- Every element satisfies the predicate.
  abbrev pub All {κ} : (A → Type κ) → List A → Type κ
  All P [] = Unit
  All P (x ∷ xs) = P x × All P xs

  pub length-append : (xs ys : List A) → length (xs ++ ys) ≡ length xs + length ys
  length-append [] ys = omega arith
  length-append (x ∷ xs) ys = omega (arith, length-append xs ys)

module _ {ℓ} {A : Type ℓ} where
  pub length-set : (xs : List A) (i : ℕ) (v : A) → length (set xs i v) ≡ length xs
  length-set [] i v = refl
  length-set (x ∷ xs) zero v = refl
  length-set (x ∷ xs) (suc i) v = ap suc (length-set xs i v)

  pub get_elem?-set_self :
      (xs : List A) (i : ℕ) (v : A) → i < length xs → get_elem? (set xs i v) i ≡ some v
  get_elem?-set_self [] i v h = elim h [ ]
  get_elem?-set_self (x ∷ xs) zero v h = refl
  get_elem?-set_self (x ∷ xs) (suc i) v h = get_elem?-set_self xs i v (omega arith)

  pub get_elem?-set_ne :
      (xs : List A) {i j : ℕ} (v : A) → i ≢ j → get_elem? (set xs i v) j ≡ get_elem? xs j
  get_elem?-set_ne [] v h = refl
  get_elem?-set_ne (x ∷ xs) {i = zero} {j = zero} v h = absurd (h refl)
  get_elem?-set_ne (x ∷ xs) {i = zero} {j = suc j} v h = refl
  get_elem?-set_ne (x ∷ xs) {i = suc i} {j = zero} v h = refl
  get_elem?-set_ne (x ∷ xs) {i = suc i} {j = suc j} v h = get_elem?-set_ne xs v (λ e. h (ap suc e))

  -- The element that an append puts at the end.
  pub get_elem?-append_end : (xs : List A) (v : A) → get_elem? (xs ++ v ∷ []) (length xs) ≡ some v
  get_elem?-append_end [] v = refl
  get_elem?-append_end (x ∷ xs) v = get_elem?-append_end xs v

  pub get_elem?-append_left :
      (xs ys : List A) (i : ℕ) → i < length xs → get_elem? (xs ++ ys) i ≡ get_elem? xs i
  get_elem?-append_left [] ys i h = elim h [ ]
  get_elem?-append_left (x ∷ xs) ys zero h = refl
  get_elem?-append_left (x ∷ xs) ys (suc i) h = get_elem?-append_left xs ys i (omega arith)

  pub get_elem?-lt : (xs : List A) (i : ℕ) {v : A} → get_elem? xs i ≡ some v → i < length xs
  get_elem?-lt [] i e = ground arith
  get_elem?-lt (x ∷ xs) zero e = omega arith
  get_elem?-lt (x ∷ xs) (suc i) e = omega (arith, get_elem?-lt xs i e)

  pub get_elem?-of_lt : (xs : List A) (i : ℕ) → i < length xs → (v : A) × (get_elem? xs i ≡ some v)
  get_elem?-of_lt [] i h = elim h [ ]
  get_elem?-of_lt (x ∷ xs) zero h = (x, refl)
  get_elem?-of_lt (x ∷ xs) (suc i) h = get_elem?-of_lt xs i (omega arith)

  pub take-append_left : (xs ys : List A) → take (length xs) (xs ++ ys) ≡ xs
  take-append_left [] ys = refl
  take-append_left (x ∷ xs) ys = ap (◌∷◌ x) (take-append_left xs ys)

  pub drop-append_left : (xs ys : List A) → drop (length xs) (xs ++ ys) ≡ ys
  drop-append_left [] ys = refl
  drop-append_left (x ∷ xs) ys = drop-append_left xs ys

  pub length-take : (n : ℕ) (xs : List A) → length (take n xs) ≡ min n (length xs)
  length-take zero xs = omega arith
  length-take (suc n) [] = omega arith
  length-take (suc n) (x ∷ xs) = omega (arith, length-take n xs)

  pub length-map {κ} : {B : Type κ} (xs : List A) (f : A → B) → length (map f xs) ≡ length xs
  length-map [] f = refl
  length-map (x ∷ xs) f = ap suc (length-map xs f)

  pub length-replicate : (n : ℕ) (a : A) → length (replicate n a) ≡ n
  length-replicate zero a = refl
  length-replicate (suc n) a = ap suc (length-replicate n a)

  pub All-append {κ} : (P : A → Type κ) (xs ys : List A) → All P xs → All P ys → All P (xs ++ ys)
  All-append P [] ys hx hy = hy
  All-append P (x ∷ xs) ys hx hy = (hx.0, All-append P xs ys hx.1 hy)

  -- What stands in a list after one element was added at the end, or written.
  pub get_elem?-append_cases :
      (xs : List A) (v : A) (i : ℕ) {c : A}
      → get_elem? (xs ++ v ∷ []) i ≡ some c
      → (get_elem? xs i ≡ some c) ⊎ (v ≡ c)
  get_elem?-append_cases [] v zero h = inr cc
  get_elem?-append_cases [] v (suc i) h = cc
  get_elem?-append_cases (x ∷ xs) v zero h = inl h
  get_elem?-append_cases (x ∷ xs) v (suc i) h = get_elem?-append_cases xs v i h

  pub get_elem?-set_cases :
      (xs : List A) (k : ℕ) (v : A) (i : ℕ) {c : A}
      → get_elem? (set xs k v) i ≡ some c
      → (get_elem? xs i ≡ some c) ⊎ (v ≡ c)
  get_elem?-set_cases [] k v i h = cc
  get_elem?-set_cases (x ∷ xs) zero v zero h = inr cc
  get_elem?-set_cases (x ∷ xs) zero v (suc i) h = inl h
  get_elem?-set_cases (x ∷ xs) (suc k) v zero h = inl h
  get_elem?-set_cases (x ∷ xs) (suc k) v (suc i) h = get_elem?-set_cases xs k v i h

  pub get_elem?-append_place :
      (xs : List A) (v : A) (i : ℕ) {c : A}
      → get_elem? (xs ++ v ∷ []) i ≡ some c
      → (get_elem? xs i ≡ some c) ⊎ ((i ≡ length xs) × (v ≡ c))
  get_elem?-append_place [] v zero h = inr (refl, cc)
  get_elem?-append_place [] v (suc i) h = cc
  get_elem?-append_place (x ∷ xs) v zero h = inl h
  get_elem?-append_place (x ∷ xs) v (suc i) h = elim (get_elem?-append_place xs v i h) [
    | inl old ↦ inl old
    | inr (p, e) ↦ inr (ap suc p, e)
  ]

  pub get_elem?-map {κ} :
      {B : Type κ} (xs : List A) (f : A → B) (i : ℕ) {v : A}
      → get_elem? xs i ≡ some v
      → get_elem? (map f xs) i ≡ some (f v)
  get_elem?-map [] f i h = cc
  get_elem?-map (x ∷ xs) f zero h = cc h
  get_elem?-map (x ∷ xs) f (suc i) h = get_elem?-map xs f i h

  pub map-set_same {κ} :
      {B : Type κ} (xs : List A) (f : A → B) (i : ℕ) (w : A) {v : A}
      → get_elem? xs i ≡ some v
      → f w ≡ f v
      → map f (set xs i w) ≡ map f xs
  map-set_same [] f i w h e = refl
  map-set_same (x ∷ xs) f zero w h e = rw e (cc h)
  map-set_same (x ∷ xs) f (suc i) w h e = ap (◌∷◌ (f x)) (map-set_same xs f i w h e)
