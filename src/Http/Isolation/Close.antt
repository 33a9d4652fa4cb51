-- ===== src/Http/Isolation/Close.antt =====
-- A close event through the function that the connection names, and what it leaves of one entry.
use mongoose_cpp.Prelude.{ℕ, ◌≡◌, subst, [], none, some, All}
use mongoose_cpp.Table.{Table}
use mongoose_cpp.Table.Keys.{nat_key}
use mongoose_cpp.Table.Values.{find-AllValues}
use mongoose_cpp.Mongoose.{ok}
use mongoose_cpp.Http.Connection.{Connection}
use mongoose_cpp.Http.Endpoint.State.{System, Env}
use mongoose_cpp.Http.Endpoint.Events.{close, handle, dispatch}
use mongoose_cpp.Http.Endpoint.Wakeup.{inner}
use mongoose_cpp.Http.Endpoint.Wakeup.Lookup.{find_at, find_at-found}
use mongoose_cpp.Http.Safety.Close.{IsMarkedRight}
use mongoose_cpp.Http.Safety.Failures.{Closed, handle_close-Closed}
use mongoose_cpp.Http.Safety.Inv.{Inv}
use mongoose_cpp.Http.Safety.Events.{
  Delivers, early, late, promoted_of_mark, dispatch-handle, IsGood,
}

-- A close event, through the function that the connection names.
pub close_lem :
    (env : Env) (conn : Connection) (s : System) (r : Connection × System)
    → IsGood conn
    → Delivers conn close
    → Inv s
    → dispatch env conn close s ≡ ok r
    → Closed conn s r.1
unfolding handle
close_lem env conn s r good d v e =
    let (q, p, closed) = handle_close-Closed conn s (marked d) v in
    let same : q ≡ r = cc (p, e, dispatch-handle env conn close s good d) in
    subst (λ z. Closed conn s z.1) same closed
  where
    marked : Delivers conn close → IsMarkedRight conn
    marked (early f n l) = λ m. cc (m, n.unmarked)
    marked (late m l) = λ _. let p = promoted_of_mark conn m good in (p.remote, p.held)

pub inner-at :
    {V : Type 0} (Q : V → Type 0) (conn id : ℕ) (m : Table ℕ (Table ℕ V)) {x : V}
    → All (λ (e : ℕ × V). Q e.1) (inner conn m)
    → find_at conn id m ≡ some x
    → Q x
inner-at {V} Q conn id m h e =
    let (t, p, q) = find_at-found conn id m e in
    find-AllValues nat_key Q id t
      (subst
        (λ o. All (λ (e : ℕ × V). Q e.1) (elim o as (λ _. Table ℕ V) [ none ↦ [] | some t ↦ t ])) p
        h)
      q
