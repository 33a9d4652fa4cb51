-- ===== src/Table/Laws.antt =====
-- The laws of the maps of Table, for every key equality.
use mongoose_cpp.Prelude.{
  ◌≡◌, refl, true, false, [], ◌∷◌, none, some, arith, if◌then◌else◌, length, Bool-cases, inl, inr,
  suc,
}
use mongoose_cpp.Table.{KeyEq, Table, find, assign, erase, IsFresh, IsUnique}

module _ {ℓ} {K : Type ℓ} (E : KeyEq K) where
  -- Equal keys have the same comparisons.
  pub beq_congr : (a b c : K) → E.beq a b ≡ true → E.beq a c ≡ E.beq b c
  beq_congr a b c h = elim (Bool-cases (E.beq a c)) [
    | inl p ↦ ground (arith, E.beq_trans b a c (E.beq_sym a b h) p)
    | inr p ↦ elim (Bool-cases (E.beq b c)) [
      | inl q ↦ ground (arith, E.beq_trans a b c h q)
      | inr q ↦ ground arith
    ]
  ]

  beq_false : (a b c : K) → E.beq a b ≡ true → E.beq c b ≡ false → E.beq c a ≡ false
  beq_false a b c h k = elim (Bool-cases (E.beq c a)) [
    | inl p ↦ ground (arith, E.beq_trans c a b p h)
    | inr p ↦ p
  ]

module _ {ℓ κ} {K : Type ℓ} {V : Type κ} (E : KeyEq K) where
  pub find-assign :
      (k j : K) (v : V) (m : Table K V)
      → find E j (assign E k v m) ≡ (if E.beq k j then some v else find E j m)
  unfolding find assign
  find-assign k j v [] = refl
  find-assign k j v ((i, w) ∷ m) =
      ground (arith, beq_congr E i k j, E.beq_sym k j, beq_false E j k i, find-assign k j v m)

  pub find_fresh : (k : K) (m : Table K V) → IsFresh E k m → find E k m ≡ none
  unfolding find
  find_fresh k [] h = refl
  find_fresh k ((i, w) ∷ m) h = ground (arith, find_fresh k m h.1)

  pub IsFresh-of_find : (k : K) (m : Table K V) → find E k m ≡ none → IsFresh E k m
  unfolding find
  IsFresh-of_find k [] h = tt
  IsFresh-of_find k ((i, w) ∷ m) h = ground (arith, IsFresh-of_find k m)

  IsFresh-congr : (a b : K) (m : Table K V) → E.beq a b ≡ true → IsFresh E b m → IsFresh E a m
  IsFresh-congr a b [] h f = tt
  IsFresh-congr a b ((i, w) ∷ m) h f = (beq_false E a b i h f.0, IsFresh-congr a b m h f.1)

  pub find_congr : (a b : K) (m : Table K V) → E.beq a b ≡ true → find E a m ≡ find E b m
  unfolding find
  find_congr a b [] h = refl
  find_congr a b ((i, w) ∷ m) h = elim (Bool-cases (E.beq i b)) [
    | inl p ↦ ground (arith, E.beq_trans i b a p (E.beq_sym a b h))
    | inr p ↦ ground (arith, beq_false E a b i h p, find_congr a b m h)
  ]

  pub find-erase :
      (k j : K) (m : Table K V)
      → IsUnique E m
      → find E j (erase E k m) ≡ (if E.beq k j then none else find E j m)
  unfolding find erase
  find-erase k j [] u = ground arith
  find-erase k j ((i, w) ∷ m) u = elim (Bool-cases (E.beq i k)) [
    | inl p ↦ ground (arith, beq_congr E i k j p, find_congr i j m, find_fresh i m u.0)
    | inr p ↦ elim (Bool-cases (E.beq k j)) [
      | inl q ↦ ground (arith, find-erase k j m u.1, E.beq_trans i j k, E.beq_sym k j q)
      | inr q ↦ ground (arith, find-erase k j m u.1)
    ]
  ]

  assign-IsFresh :
      (k j : K) (v : V) (m : Table K V)
      → E.beq k j ≡ false
      → IsFresh E j m
      → IsFresh E j (assign E k v m)
  unfolding assign
  assign-IsFresh k j v [] h f = (h, tt)
  assign-IsFresh k j v ((i, w) ∷ m) h f = ground (arith, assign-IsFresh k j v m h f.1)

  pub assign-IsUnique : (k : K) (v : V) (m : Table K V) → IsUnique E m → IsUnique E (assign E k v m)
  unfolding assign
  assign-IsUnique k v [] u = (tt, tt)
  assign-IsUnique k v ((i, w) ∷ m) u = elim (Bool-cases (E.beq i k)) [
    | inl p ↦ rw p u
    | inr p ↦ rw p (assign-IsFresh k i v m (flip p) u.0, assign-IsUnique k v m u.1)
  ]
    where
      flip : E.beq i k ≡ false → E.beq k i ≡ false
      flip p = elim (Bool-cases (E.beq k i)) [ inl q ↦ ground (arith, E.beq_sym k i q) | inr q ↦ q ]

  erase-IsFresh : (k j : K) (m : Table K V) → IsFresh E j m → IsFresh E j (erase E k m)
  unfolding erase
  erase-IsFresh k j [] f = tt
  erase-IsFresh k j ((i, w) ∷ m) f = ground (arith, erase-IsFresh k j m f.1)

  pub erase-IsUnique : (k : K) (m : Table K V) → IsUnique E m → IsUnique E (erase E k m)
  unfolding erase
  erase-IsUnique k [] u = tt
  erase-IsUnique k ((i, w) ∷ m) u = ground (arith, erase-IsFresh k i m u.0, erase-IsUnique k m u.1)

  -- An assignment adds an entry exactly when the key is new.
  pub length-assign :
      (k : K) (v : V) (m : Table K V)
      → length (assign E k v m) ≡ (elim (find E k m) [ none ↦ suc (length m) | some w ↦ length m ])
  unfolding find assign
  length-assign k v [] = refl
  length-assign k v ((i, w) ∷ m) = ground (arith, length-assign k v m)

  pub length-erase :
      (k : K) (m : Table K V)
      → length m
        ≡ (elim (find E k m) [ none ↦ length (erase E k m) | some w ↦ suc (length (erase E k m)) ])
  unfolding find erase
  length-erase k [] = refl
  length-erase k ((i, w) ∷ m) = ground (arith, length-erase k m)
