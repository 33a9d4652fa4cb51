-- ===== src/Table.antt =====
-- `std::unordered_map`, as the library uses it (headers, listeners, assets, pending responses and
-- streams): an association list over a key equality, which is the map's `KeyEqual` parameter.
-- The order of the list is the order of insertion; code that iterates over a map takes the
-- iteration order as an argument of its own.
pub mod Laws
pub mod Keys
pub mod Order
pub mod Values
use mongoose_cpp.Prelude.{◌≡◌, Bool, true, false, List, [], ◌∷◌, Option, none, some, if◌then◌else◌}

-- What `std::unordered_map` requires of `KeyEqual`: an equivalence relation.
pub record KeyEq {ℓ} (K : Type ℓ) : Type ℓ where
  pub beq : K → K → Bool
  pub beq_refl : (a : K) → beq a a ≡ true
  pub beq_sym : (a b : K) → beq a b ≡ true → beq b a ≡ true
  pub beq_trans : (a b c : K) → beq a b ≡ true → beq b c ≡ true → beq a c ≡ true

abbrev pub Table {ℓ κ} : Type ℓ → Type κ → Type (ℓ ⊔ κ)
Table K V = List (K × V)

module _ {ℓ κ} {K : Type ℓ} {V : Type κ} (E : KeyEq K) where
  -- `find`, with `none` for `end()`.
  unfoldable pub find : K → Table K V → Option V
  find k [] = none
  find k ((j, v) ∷ m) = if E.beq j k then some v else find k m

  -- `m[k] = v` and `insert_or_assign(k, v)`: an equal key that is there already stays as it is
  -- spelled.
  unfoldable pub assign : K → V → Table K V → Table K V
  assign k v [] = (k, v) ∷ []
  assign k v ((j, w) ∷ m) = if E.beq j k then (j, v) ∷ m else (j, w) ∷ assign k v m

  -- `erase(find(k))`.
  unfoldable pub erase : K → Table K V → Table K V
  erase k [] = []
  erase k ((j, w) ∷ m) = if E.beq j k then m else (j, w) ∷ erase k m

  -- No entry after this one has an equal key.
  abbrev pub IsFresh : K → Table K V → Type 0
  IsFresh k [] = Unit
  IsFresh k ((j, w) ∷ m) = (E.beq j k ≡ false) × IsFresh k m

  -- The keys of a map are pairwise different.
  abbrev pub IsUnique : Table K V → Type 0
  IsUnique [] = Unit
  IsUnique ((j, w) ∷ m) = IsFresh j m × IsUnique m
