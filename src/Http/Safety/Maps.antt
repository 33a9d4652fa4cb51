-- ===== src/Http/Safety/Maps.antt =====
-- The maps of maps under the changes that the endpoint makes to them.
use mongoose_cpp.Prelude.{
  ℕ, ◌==◌, ◌&&◌, ==_iff, ==_refl, if◌then◌else◌, ◌≡◌, refl, ◌∙◌, ap, sym, subst, true, false, [],
  ◌∷◌, Option, none, some, arith, All, Bool-cases, inl, inr,
}
use mongoose_cpp.Table.{Table, find, assign, erase, IsUnique}
use mongoose_cpp.Table.Keys.{nat_key}
use mongoose_cpp.Table.Laws.{find-assign, find-erase, assign-IsUnique, erase-IsUnique, find_fresh}
use mongoose_cpp.Http.Endpoint.State.{Streams}
use mongoose_cpp.Http.Endpoint.Wakeup.{inner, assign_at, drop_stream}
use mongoose_cpp.Http.Endpoint.Wakeup.Lookup.{find_at, find_in, find_at-assign_at, find_at-erase_at}

at_place : (a b c d : ℕ) → (a == b && c == d) ≡ true → (a ≡ b) × (c ≡ d)
at_place a b c d h = ground arith

module _ {V : Type 0} where
  -- All inner maps have different keys.
  abbrev pub InnerUnique : Table ℕ (Table ℕ V) → Type 0
  InnerUnique m = (conn : ℕ) (t : Table ℕ V) → find nat_key conn m ≡ some t → IsUnique nat_key t

  pub InnerUnique-assign :
      (conn : ℕ) (t : Table ℕ V) (m : Table ℕ (Table ℕ V))
      → IsUnique nat_key t
      → InnerUnique m
      → InnerUnique (assign nat_key conn t m)
  InnerUnique-assign conn t m u v c t' h = elim (Bool-cases (conn == c)) [
    | inl p ↦
        let e : some t ≡ some t' = sym (find-assign nat_key conn c t m ∙ rw p) ∙ h in
        subst (IsUnique nat_key) (some_eq e) u
    | inr p ↦ v c t' (sym (find-assign nat_key conn c t m ∙ rw p) ∙ h)
  ]
    where
      some_eq : {a b : Table ℕ V} → some a ≡ some b → a ≡ b
      some_eq e = cc

  pub InnerUnique-erase :
      (conn : ℕ) (m : Table ℕ (Table ℕ V))
      → IsUnique nat_key m
      → InnerUnique m
      → InnerUnique (erase nat_key conn m)
  InnerUnique-erase conn m u v c t' h = elim (Bool-cases (conn == c)) [
    | inl p ↦ ground (arith, find-erase nat_key conn c m u)
    | inr p ↦ v c t' (ground (arith, find-erase nat_key conn c m u))
  ]

  pub inner-IsUnique :
      (conn : ℕ) (m : Table ℕ (Table ℕ V)) → InnerUnique m → IsUnique nat_key (inner conn m)
  inner-IsUnique conn m v = go (find nat_key conn m) (v conn)
    where
      go :
          (o : Option (Table ℕ V))
          → ((t : Table ℕ V) → o ≡ some t → IsUnique nat_key t)
          → IsUnique nat_key (elim o as (λ _. Table ℕ V) [ none ↦ [] | some t ↦ t ])
      go none h = tt
      go (some t) h = h t refl

  pub InnerUnique-assign_at :
      (conn id : ℕ) (x : V) (m : Table ℕ (Table ℕ V))
      → InnerUnique m
      → InnerUnique (assign_at conn id x m)
  InnerUnique-assign_at conn id x m v =
      InnerUnique-assign conn _ m
        (assign-IsUnique nat_key id x (inner conn m) (inner-IsUnique conn m v)) v

  -- Every entry of the map of maps satisfies a property.
  abbrev pub AllAt : (ℕ → ℕ → V → Type 0) → Table ℕ (Table ℕ V) → Type 0
  AllAt P m = (conn id : ℕ) (x : V) → find_at conn id m ≡ some x → P conn id x

  pub AllAt-assign_at :
      (P : ℕ → ℕ → V → Type 0) (conn id : ℕ) (x : V) (m : Table ℕ (Table ℕ V))
      → P conn id x
      → AllAt P m
      → AllAt P (assign_at conn id x m)
  AllAt-assign_at P conn id x m p h c i y e = elim (Bool-cases (conn == c && id == i)) [
    | inl q ↦
        let (a, b) = at_place conn c id i q in
        let xy : x ≡ y = ground (arith, find_at-assign_at conn id c i x m) in
        subst (λ z. P c z y) b (subst (λ z. P z id y) a (subst (P conn id) xy p))
    | inr q ↦ h c i y (sym (find_at-assign_at conn id c i x m ∙ rw q) ∙ e)
  ]

  -- After the erasure of one entry, the entries are those at other places.
  pub AllAt-erased :
      (P Q : ℕ → ℕ → V → Type 0) (conn id : ℕ) (m m' : Table ℕ (Table ℕ V))
      → ((c i : ℕ) → find_at c i m' ≡ (if conn == c && id == i then none else find_at c i m))
      → ((c i : ℕ) (x : V) → (conn == c && id == i) ≡ false → P c i x → Q c i x)
      → AllAt P m
      → AllAt Q m'
  AllAt-erased P Q conn id m m' law step h c i y e = elim (Bool-cases (conn == c && id == i)) [
    | inl q ↦ ground (arith, law c i)
    | inr q ↦ step c i y q (h c i y (ground (arith, law c i)))
  ]

  pub find_at-erase_outer :
      (conn c i : ℕ) (m : Table ℕ (Table ℕ V))
      → IsUnique nat_key m
      → find_at c i (erase nat_key conn m) ≡ (if conn == c then none else find_at c i m)
  find_at-erase_outer conn c i m u = elim (Bool-cases (conn == c)) [
    | inl p ↦ rw (find-erase nat_key conn c m u) (rw p)
    | inr p ↦ rw (find-erase nat_key conn c m u) (rw p)
  ]

  pub AllAt-erase_outer :
      (P : ℕ → ℕ → V → Type 0) (conn : ℕ) (m : Table ℕ (Table ℕ V))
      → IsUnique nat_key m
      → AllAt P m
      → AllAt P (erase nat_key conn m)
  AllAt-erase_outer P conn m u h c i y e = elim (Bool-cases (conn == c)) [
    | inl q ↦ ground (arith, find_at-erase_outer conn c i m u)
    | inr q ↦ h c i y (ground (arith, find_at-erase_outer conn c i m u))
  ]

  -- What holds of every entry that is found holds of every entry.
  pub All-of_find :
      (P : ℕ × V → Type 0) (t : Table ℕ V)
      → IsUnique nat_key t
      → ((id : ℕ) (x : V) → find nat_key id t ≡ some x → P (id, x))
      → All P t
  unfolding find
  All-of_find P [] u h = tt
  All-of_find P ((j, w) ∷ t) u h =
      (h j w (rw (==_refl j)), All-of_find P t u.1 (λ id x e. h id x (skips id x e)))
    where
      skips : (id : ℕ) (x : V) → find nat_key id t ≡ some x → find nat_key id ((j, w) ∷ t) ≡ some x
      skips id x e = elim (Bool-cases (j == id)) [
        | inl p ↦
            let q : j ≡ id = (==_iff j id).0 p in
            let none_at = subst (λ z. find nat_key z t ≡ none) q (find_fresh nat_key j t u.0) in
            cc (none_at, e)
        | inr p ↦ rw p e
      ]

drop_cases :
    (P : Table ℕ Streams → Type 0) (conn : ℕ) (left : Streams) (m : Table ℕ Streams)
    → (left ≡ [] → P (erase nat_key conn m))
    → P (assign nat_key conn left m)
    → P (elim left as (λ _. Table ℕ Streams) [
      | [] ↦ erase nat_key conn m
      | s ∷ rest ↦ assign nat_key conn (s ∷ rest) m
    ])
drop_cases P conn [] m gone kept = gone refl
drop_cases P conn (s ∷ rest) m gone kept = kept

emptied :
    (conn id c i : ℕ) (streams : Streams) (m : Table ℕ Streams)
    → find nat_key conn m ≡ some streams
    → IsUnique nat_key streams
    → IsUnique nat_key m
    → erase nat_key id streams ≡ []
    → find_at c i (erase nat_key conn m) ≡ (if conn == c && id == i then none else find_at c i m)
emptied conn id c i streams m e u v none_left =
    let outer = find_at-erase_outer conn c i m v in
    let inside = find-erase nat_key id i streams u in
    let gone = ap (find nat_key i) none_left in
    let nothing = find_fresh {V = Option ℕ} nat_key i [] tt in
    elim (Bool-cases (conn == c)) [
      | inl p ↦
          let here : find_at c i m ≡ find nat_key i streams =
            subst (λ z. find_at z i m ≡ find nat_key i streams) ((==_iff conn c).0 p)
              (ap (find_in i) e) in
          ground (arith, outer, inside, gone, nothing, here)
      | inr p ↦ ground (arith, outer)
    ]

-- Dropping a stream takes its own entry away, and no other.
pub find_at-drop_stream :
    (conn id c i : ℕ) (streams : Streams) (m : Table ℕ Streams)
    → find nat_key conn m ≡ some streams
    → IsUnique nat_key streams
    → IsUnique nat_key m
    → find_at c i (drop_stream conn id streams m)
      ≡ (if conn == c && id == i then none else find_at c i m)
unfolding drop_stream
find_at-drop_stream conn id c i streams m e u v =
    drop_cases (λ m'. find_at c i m' ≡ (if conn == c && id == i then none else find_at c i m)) conn
      (erase nat_key id streams) m (λ none_left. emptied conn id c i streams m e u v none_left)
      (find_at-erase_at conn id c i streams m e u)

pub drop_stream-IsUnique :
    (conn id : ℕ) (streams : Streams) (m : Table ℕ Streams)
    → IsUnique nat_key m
    → IsUnique nat_key (drop_stream conn id streams m)
unfolding drop_stream
drop_stream-IsUnique conn id streams m v =
    drop_cases (IsUnique nat_key) conn (erase nat_key id streams) m
      (λ _. erase-IsUnique nat_key conn m v) (assign-IsUnique nat_key conn _ m v)

pub drop_stream-InnerUnique :
    (conn id : ℕ) (streams : Streams) (m : Table ℕ Streams)
    → IsUnique nat_key streams
    → IsUnique nat_key m
    → InnerUnique m
    → InnerUnique (drop_stream conn id streams m)
unfolding drop_stream
drop_stream-InnerUnique conn id streams m u v w =
    drop_cases InnerUnique conn (erase nat_key id streams) m (λ _. InnerUnique-erase conn m v w)
      (InnerUnique-assign conn _ m (erase-IsUnique nat_key id streams u) w)
