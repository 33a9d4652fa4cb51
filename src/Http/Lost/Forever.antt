-- ===== src/Http/Lost/Forever.antt =====
-- A response that was pending on a closed connection, in all that may follow.
use mongoose_cpp.Prelude.{
  ◌==◌, ==_iff, ℕ, ◌≡◌, ◌≢◌, ◌∙◌, ap, sym, List, some, get_elem?, set, Bool-cases, inl, inr, refl,
}
use mongoose_cpp.Table.Keys.{nat_key}
use mongoose_cpp.Table.Values.{find-AllValues}
use mongoose_cpp.Mongoose.{ok}
use mongoose_cpp.Http.AsyncResponse.State.{is_pending}
use mongoose_cpp.Http.Connection.{Connection}
use mongoose_cpp.Http.Endpoint.State.{System, Env, Responses, AsyncAction, user_actions}
use mongoose_cpp.Http.Endpoint.Once.{settled_actions}
use mongoose_cpp.Http.Endpoint.Events.{close, dispatch}
use mongoose_cpp.Http.Endpoint.Wakeup.Lookup.{find_at, find_in, find_at-found}
use mongoose_cpp.Http.Safety.Close.{FailedAt}
use mongoose_cpp.Http.Safety.Inv.{Inv}
use mongoose_cpp.Http.Safety.Maps.{All-of_find}
use mongoose_cpp.Http.Safety.Message.{CapturesFit}
use mongoose_cpp.Http.Safety.Events.{Delivers}
use mongoose_cpp.Http.Safety.Failures.{Closed}
use mongoose_cpp.Http.Safety.Reach.{World, Reach, next, serves, start, Reach-WorldInv}
use mongoose_cpp.Http.Isolation.Close.{close_lem, inner-at}
use mongoose_cpp.Http.Lost.{IsAbsentIn, IsAbsent, IsLost}
use mongoose_cpp.Http.Lost.World.{Reach-IsLost}

-- Where no lookup leads to the response, no entry does.
IsAbsent-of_find :
    (ref : ℕ) (s : System)
    → Inv s
    → ((c id : ℕ) → find_at c id s.pending_responses ≢ some ref)
    → IsAbsent ref s.pending_responses
IsAbsent-of_find ref s v none_at =
    All-of_find (λ (e : ℕ × Responses). IsAbsentIn ref e.1) s.pending_responses v.responses_keys
      (λ c t e.
        All-of_find (λ (x : ℕ × ℕ). x.1 ≢ ref) t (v.responses_unique c t e)
          (λ id k f p. none_at c id (ap (find_in id) e ∙ f ∙ ap some p)))

find_at-IsAbsent :
    (ref c id : ℕ) (s : System)
    → IsAbsent ref s.pending_responses
    → find_at c id s.pending_responses ≢ some ref
find_at-IsAbsent ref c id s a e =
    let (t, p, q) = find_at-found c id s.pending_responses e in
    find-AllValues nat_key (λ v. v ≢ ref) id t
      (find-AllValues nat_key (IsAbsentIn ref) c s.pending_responses a p) q refl

-- What the close event does to a response that was pending on its connection.
Closed-IsLost :
    (conn : Connection) (s u : System) (id ref : ℕ)
    → Inv s
    → Inv u
    → Closed conn s u
    → find_at conn.id id s.pending_responses ≡ some ref
    → IsLost ref u
Closed-IsLost conn s u id ref v w (failed, _, left, _, _) e = (
  inner-at (FailedAt u.responses) conn.id id s.pending_responses failed e,
  IsAbsent-of_find ref u w (λ c i f. elim (Bool-cases (conn.id == c)) [
    | inl p ↦ let gone = rw p at (left c i).0 in cc (gone, f)
    | inr p ↦
        let still = sym (rw p at (left c i).0) ∙ f in
        let (r, h, rc, _, _) = v.responses_valid conn.id id ref e in
        let (q, k, qc, _, _) = v.responses_valid c i ref still in
        let same : conn.id ≡ c = cc (h, k, rc, qc) in
        let hit = (==_iff conn.id c).1 same in cc (hit, p)
  ]),
)

-- From any world that a new endpoint reaches, the close event of a connection is final for each
-- response that was pending on it: in every world that is reached from there, by any steps of
-- connections, users and threads, the response has failed, no wake-up finds it pending, and no call
-- of a user on it posts a wake-up.
pub closed_for_good :
    (env : Env) {w u : World} (i : ℕ) (conn : Connection) (r : Connection × System) (id ref : ℕ)
    → CapturesFit env
    → Reach env start w
    → get_elem? w.conns i ≡ some conn
    → Delivers conn close
    → dispatch env conn close w.system ≡ ok r
    → find_at conn.id id w.system.pending_responses ≡ some ref
    → Reach env (record { conns = set w.conns i r.0; system = r.1 }) u
    → FailedAt u.system.responses ref
      × ((c id' : ℕ) → find_at c id' u.system.pending_responses ≢ some ref)
      × ((actions : List AsyncAction)
          → (user_actions env u.system ref actions).signals ≡ u.system.signals)
closed_for_good env {w} {u} i conn r id ref fit reached h d e pending later =
    let v = Reach-WorldInv env fit reached in
    let after = Reach-WorldInv env fit (next reached (serves i conn close r h d e)) in
    let closed = close_lem env conn w.system r (v.conns_good i conn h) d v.system_inv e in
    let (f, absent) =
      Reach-IsLost ref env later
        (Closed-IsLost conn w.system r.1 id ref v.system_inv after.system_inv closed pending) in
    let (q, k, failed) = f in
    (
      f,
      λ c id'. find_at-IsAbsent ref c id' u.system absent,
      λ actions. settled_actions env u.system ref actions (q, k, ap is_pending failed),
    )
