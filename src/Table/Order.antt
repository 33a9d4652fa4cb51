-- ===== src/Table/Order.antt =====
-- The order in which a loop visits a map.
use mathlib.Core.List.{Permᴰ}
use mathlib.Core.List.Permᴰ
use mongoose_cpp.Prelude.{
  ℕ, zero, suc, get_elem?, ◌+◌, ◌≤◌, ◌≡◌, refl, ap, sym, ◌∙◌, subst, List, [], ◌∷◌, All, Option,
  none, some, arith, Option-cases, inl, inr,
}

-- What the language promises of a loop over a map: each entry once, in some order.
pub record Order {ℓ} (A : Type ℓ) : Type ℓ where
  pub visit : List A → List A
  pub visit_perm : (l : List A) → Permᴰ (visit l) l

-- The order of insertion is one such order.
abbrev pub insertion_order {ℓ} : {A : Type ℓ} → Order A
insertion_order = record { visit = λ l. l; visit_perm = λ l. Permᴰ.refl l }

module _ {ℓ κ} {A : Type ℓ} (P : A → Type κ) where
  All-Permᴰ : {xs ys : List A} → Permᴰ xs ys → All P ys → All P xs
  All-Permᴰ Permᴰ.nil h = tt
  All-Permᴰ (Permᴰ.cons e p) h = (subst P (sym e) h.0, All-Permᴰ p h.1)
  All-Permᴰ (Permᴰ.swap e f) h = (subst P (sym e) h.1.0, (subst P (sym f) h.0, h.1.1))
  All-Permᴰ (Permᴰ.trans p q) h = All-Permᴰ p (All-Permᴰ q h)

  -- What holds of every entry holds of every visited one.
  pub All-visit : (o : Order A) (xs : List A) → All P xs → All P (o.visit xs)
  All-visit o xs h = All-Permᴰ (o.visit_perm xs) h

abbrev pub or_else {κ} : {B : Type κ} → Option B → Option B → Option B
or_else none later = later
or_else (some b) later = some b

abbrev pub hit {κ} : {B : Type κ} → Option B → ℕ
hit none = 0
hit (some b) = 1

module _ {ℓ κ} {A : Type ℓ} {B : Type κ} (f : A → Option B) where
  -- The first entry that a search accepts, and how many it would accept.
  abbrev pub first_hit : List A → Option B
  first_hit [] = none
  first_hit (x ∷ xs) = or_else (f x) (first_hit xs)

  abbrev pub hits : List A → ℕ
  hits [] = 0
  hits (x ∷ xs) = hit (f x) + hits xs

  hits-Permᴰ : {xs ys : List A} → Permᴰ xs ys → hits xs ≡ hits ys
  hits-Permᴰ Permᴰ.nil = refl
  hits-Permᴰ (Permᴰ.cons {a = a} {l₁ = xs} {l₂ = ys} e p) =
      subst (λ z. hits (a ∷ xs) ≡ hits (z ∷ ys)) e (ap (λ n. hit (f a) + n) (hits-Permᴰ p))
  hits-Permᴰ (Permᴰ.swap {a = a} {b = b} {a' = a'} {b' = b'} {l = l} e g) =
      subst (λ z. hits (a ∷ b ∷ l) ≡ hits (z ∷ b' ∷ l)) g
        (subst (λ z. hits (a ∷ b ∷ l) ≡ hits (b ∷ z ∷ l)) e (omega arith))
  hits-Permᴰ (Permᴰ.trans p q) = hits-Permᴰ p ∙ hits-Permᴰ q

  first_hit_same :
      (a : A) (xs ys : List A)
      → (hits ys ≤ 1 → first_hit xs ≡ first_hit ys)
      → hits (a ∷ ys) ≤ 1
      → first_hit (a ∷ xs) ≡ first_hit (a ∷ ys)
  first_hit_same a xs ys ih h = elim (Option-cases (f a)) [
    | inl e ↦ rw e (ih (omega (arith, h)))
    | inr (b, e) ↦ rw e refl
  ]

  first_hit_swap :
      (a b : A) (l : List A) → hits (b ∷ a ∷ l) ≤ 1 → first_hit (a ∷ b ∷ l) ≡ first_hit (b ∷ a ∷ l)
  first_hit_swap a b l h = elim (Option-cases (f a)) [
    | inl e ↦ rw e refl
    | inr (x, e) ↦ elim (Option-cases (f b)) [
      | inl g ↦ rw (e, g) refl
      | inr (y, g) ↦ absurd (omega (arith, rw (e, g) at h))
    ]
  ]

  first_hit-Permᴰ : {xs ys : List A} → Permᴰ xs ys → hits ys ≤ 1 → first_hit xs ≡ first_hit ys
  first_hit-Permᴰ Permᴰ.nil h = refl
  first_hit-Permᴰ (Permᴰ.cons {a = a} {l₁ = xs} {l₂ = ys} e p) h =
      subst (λ z. first_hit (a ∷ xs) ≡ first_hit (z ∷ ys)) e
        (first_hit_same a xs ys (first_hit-Permᴰ p) (subst (λ z. hits (z ∷ ys) ≤ 1) (sym e) h))
  first_hit-Permᴰ (Permᴰ.swap {a = a} {b = b} {a' = a'} {b' = b'} {l = l} e g) h =
      first_hit_swap a b l
        (subst (λ z. hits (b ∷ z ∷ l) ≤ 1) (sym e) (subst (λ z. hits (z ∷ b' ∷ l) ≤ 1) (sym g) h))
      ∙ ap (λ z. first_hit (z ∷ a ∷ l)) g
      ∙ ap (λ z. first_hit (a' ∷ z ∷ l)) e
  first_hit-Permᴰ (Permᴰ.trans p q) h =
      first_hit-Permᴰ p (subst (λ n. n ≤ 1) (sym (hits-Permᴰ q)) h) ∙ first_hit-Permᴰ q h

  -- Where a search accepts one entry at most, it finds the same in any order.
  pub first_hit-visit :
      (o : Order A) (xs : List A) → hits xs ≤ 1 → first_hit (o.visit xs) ≡ first_hit xs
  first_hit-visit o xs h = first_hit-Permᴰ (o.visit_perm xs) h

-- The order that visits the entry at a place first, and the others as they were inserted.
module _ {ℓ} {A : Type ℓ} where
  behind_head : A → List A → List A
  behind_head x [] = x ∷ []
  behind_head x (y ∷ ys) = y ∷ x ∷ ys

  behind_head-perm : (x : A) (xs : List A) → Permᴰ (behind_head x xs) (x ∷ xs)
  unfolding behind_head
  behind_head-perm x [] = Permᴰ.refl (x ∷ [])
  behind_head-perm x (y ∷ ys) = Permᴰ.swap refl refl

  to_front : ℕ → List A → List A
  to_front i [] = []
  to_front zero (x ∷ xs) = x ∷ xs
  to_front (suc i) (x ∷ xs) = behind_head x (to_front i xs)

  to_front-perm : (i : ℕ) (xs : List A) → Permᴰ (to_front i xs) xs
  unfolding to_front
  to_front-perm i [] = Permᴰ.nil
  to_front-perm zero (x ∷ xs) = Permᴰ.refl (x ∷ xs)
  to_front-perm (suc i) (x ∷ xs) =
      Permᴰ.trans (behind_head-perm x (to_front i xs)) (Permᴰ.cons refl (to_front-perm i xs))

  to_front-at :
      (i : ℕ) (xs : List A) {a : A}
      → get_elem? xs i ≡ some a
      → (rest : List A) × (to_front i xs ≡ a ∷ rest)
  unfolding to_front behind_head
  to_front-at i [] e = cc
  to_front-at zero (x ∷ xs) e = (xs, ground arith)
  to_front-at (suc i) (x ∷ xs) e =
      let (rest, q) = to_front-at i xs e in (x ∷ rest, ap (behind_head x) q)

  pub first_at : ℕ → Order A
  first_at i = record { visit = to_front i; visit_perm = to_front-perm i }

  -- The entry at the place is visited first.
  pub first_at_lem :
      (i : ℕ) (xs : List A) {a : A}
      → get_elem? xs i ≡ some a
      → (rest : List A) × ((first_at i).visit xs ≡ a ∷ rest)
  unfolding first_at
  first_at_lem i xs e = to_front-at i xs e
