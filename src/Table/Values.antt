-- ===== src/Table/Values.antt =====
-- What holds of every value of a map.
use mongoose_cpp.Prelude.{◌≡◌, subst, [], arith, ◌∷◌, some, All, Bool-cases, inl, inr}
use mongoose_cpp.Table.{KeyEq, Table, find, assign, erase}

module _ {ℓ κ μ} {K : Type ℓ} {V : Type κ} (E : KeyEq K) (P : V → Type μ) where
  abbrev pub AllValues : Table K V → Type μ
  AllValues t = All (λ (e : K × V). P e.1) t

  pub find-AllValues : (k : K) (t : Table K V) {x : V} → AllValues t → find E k t ≡ some x → P x
  unfolding find
  find-AllValues k [] h e = absurd (cc)
  find-AllValues k ((j, v) ∷ t) h e = elim (Bool-cases (E.beq j k)) [
    | inl p ↦ subst P (ground arith) h.0
    | inr p ↦ find-AllValues k t h.1 (ground arith)
  ]

  pub assign-AllValues :
      (k : K) (x : V) (t : Table K V) → P x → AllValues t → AllValues (assign E k x t)
  unfolding assign
  assign-AllValues k x [] p h = (p, tt)
  assign-AllValues k x ((j, v) ∷ t) p h = elim (Bool-cases (E.beq j k)) [
    | inl q ↦ rw q (p, h.1)
    | inr q ↦ rw q (h.0, assign-AllValues k x t p h.1)
  ]

  pub erase-AllValues : (k : K) (t : Table K V) → AllValues t → AllValues (erase E k t)
  unfolding erase
  erase-AllValues k [] h = tt
  erase-AllValues k ((j, v) ∷ t) h = elim (Bool-cases (E.beq j k)) [
    | inl q ↦ rw q h.1
    | inr q ↦ rw q (h.0, erase-AllValues k t h.1)
  ]
