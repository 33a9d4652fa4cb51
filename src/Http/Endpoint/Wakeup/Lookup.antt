-- ===== src/Http/Endpoint/Wakeup/Lookup.antt =====
-- The maps of maps that hold the pending responses and streams, under a connection and a number.
use mongoose_cpp.Prelude.{
  ℕ, ◌≡◌, refl, sym, ap, ◌∙◌, Option-cases, inl, inr, Bool, true, false, ◌&&◌, Option, none, some,
  arith, ◌==◌, if◌then◌else◌,
}
use mongoose_cpp.Table.{Table, find, assign, erase, IsUnique}
use mongoose_cpp.Table.Keys.{nat_key}
use mongoose_cpp.Table.Laws.{find-assign, find-erase}
use mongoose_cpp.Http.Endpoint.Wakeup.{inner, assign_at}

-- `m[conn][id]`, as far as both maps have the key.
abbrev pub find_in {ℓ} : {V : Type ℓ} → ℕ → Option (Table ℕ V) → Option V
find_in id none = none
find_in id (some t) = find nat_key id t

abbrev pub find_at {ℓ} : {V : Type ℓ} → ℕ → ℕ → Table ℕ (Table ℕ V) → Option V
find_at conn id m = find_in id (find nat_key conn m)

module _ {ℓ} {V : Type ℓ} where
  find_in-inner :
      (conn id : ℕ) (m : Table ℕ (Table ℕ V)) → find nat_key id (inner conn m) ≡ find_at conn id m
  unfolding find
  find_in-inner conn id m = ground arith

  find_in-if :
      (b : Bool) (id : ℕ) (t : Table ℕ V) (o : Option (Table ℕ V))
      → find_in id (if b then some t else o) ≡ (if b then find nat_key id t else find_in id o)
  find_in-if true id t o = refl
  find_in-if false id t o = refl

  -- An assignment is seen at its own place, and nowhere else.
  pub find_at-assign_at :
      (conn id conn' id' : ℕ) (v : V) (m : Table ℕ (Table ℕ V))
      → find_at conn' id' (assign_at conn id v m)
        ≡ (if conn == conn' && id == id' then some v else find_at conn' id' m)
  find_at-assign_at conn id conn' id' v m =
      rw (find-assign nat_key conn conn' (assign nat_key id v (inner conn m)) m) (
        rw
          (find_in-if (conn == conn') id' (assign nat_key id v (inner conn m))
            (find nat_key conn' m))
          (rw (find-assign nat_key id id' v (inner conn m))
            (ground (arith, find_in-inner conn id' m))))

  -- The erasure of one number under a connection whose map is `t`.
  pub find_at-erase_at :
      (conn id conn' id' : ℕ) (t : Table ℕ V) (m : Table ℕ (Table ℕ V))
      → find nat_key conn m ≡ some t
      → IsUnique nat_key t
      → find_at conn' id' (assign nat_key conn (erase nat_key id t) m)
        ≡ (if conn == conn' && id == id' then none else find_at conn' id' m)
  find_at-erase_at conn id conn' id' t m e u =
      rw (find-assign nat_key conn conn' (erase nat_key id t) m) (
        rw (find_in-if (conn == conn') id' (erase nat_key id t) (find nat_key conn' m))
          (rw (find-erase nat_key id id' t u) (ground arith)))

-- What `find_at` finds stands in the map of its connection.
pub find_at-found {ℓ} :
    {V : Type ℓ} (conn id : ℕ) (m : Table ℕ (Table ℕ V)) {x : V}
    → find_at conn id m ≡ some x
    → (t : Table ℕ V) × (find nat_key conn m ≡ some t) × (find nat_key id t ≡ some x)
find_at-found {V = V} conn id m e = elim (Option-cases (find nat_key conn m)) [
  | inl p ↦ absurd (none_some (sym (ap (find_in id) p) ∙ e))
  | inr (t, p) ↦ (t, p, sym (ap (find_in id) p) ∙ e)
]
  where
    none_some : {x : V} → ◌≡◌ {A = Option V} none (some x) → ⊥
    none_some e = cc
