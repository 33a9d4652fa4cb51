-- ===== src/Http/Safety/Failures.antt =====
-- What the closing of a connection leaves: everything that was pending on it has failed.
use mongoose_cpp.Prelude.{ℕ, ◌==◌, ◌≡◌, sym, ◌∙◌, ap, subst, Option, none, All, if◌then◌else◌}
use mongoose_cpp.Mongoose.{ok}
use mongoose_cpp.Http.Connection.{Connection}
use mongoose_cpp.Http.Endpoint.State.{System}
use mongoose_cpp.Http.Endpoint.Events.{handle_close}
use mongoose_cpp.Http.Endpoint.Wakeup.{inner}
use mongoose_cpp.Http.Endpoint.Wakeup.Lookup.{find_at}
use mongoose_cpp.Http.Safety.Inv.{Inv}
use mongoose_cpp.Http.Safety.Close.{FailedAt, IsMarkedRight, release_lem}
use mongoose_cpp.Http.Safety.Closing.{StreamFailedAt, responses_closed, streams_closed}

-- What a close event of a connection leaves; what had failed before still has.
abbrev pub Closed : Connection → System → System → Type 0
Closed conn s u =
    All (λ (e : ℕ × ℕ). FailedAt u.responses e.1) (inner conn.id s.pending_responses)
    × All (λ (e : ℕ × Option ℕ). StreamFailedAt u.streams e.1) (inner conn.id s.pending_streams)
    × ((c id : ℕ)
        → (find_at c id u.pending_responses
            ≡ (if conn.id == c then none else find_at c id s.pending_responses))
          × (find_at c id u.pending_streams
              ≡ (if conn.id == c then none else find_at c id s.pending_streams)))
    × ((ref : ℕ) → FailedAt s.responses ref → FailedAt u.responses ref)
    × ((ref : Option ℕ) → StreamFailedAt s.streams ref → StreamFailedAt u.streams ref)

pub handle_close-Closed :
    (conn : Connection) (s : System)
    → IsMarkedRight conn
    → Inv s
    → (r : Connection × System) × (handle_close conn s ≡ ok r) × Closed conn s r.1
unfolding handle_close
handle_close-Closed conn s marked v =
    let (t, e, w, failed, left, streams, kept, same) = responses_closed conn.id s v in
    let (u, q, broken, gone, rs, pr, old) = streams_closed conn.id t w in
    let (closed, p, _) = release_lem conn marked in
    (
      (closed, u),
      rw e (rw q (rw p)),
      (
        subst (λ z. All (λ (e : ℕ × ℕ). FailedAt z e.1) (inner conn.id s.pending_responses))
            (sym rs) failed,
        subst (λ m. All (λ (e : ℕ × Option ℕ). StreamFailedAt u.streams e.1) (inner conn.id m))
            streams broken,
        λ c id. (
          ap (find_at c id) pr ∙ left c id,
          gone c id ∙ ap (λ m. if conn.id == c then none else find_at c id m) streams,
        ),
        λ ref f. subst (λ z. FailedAt z ref) (sym rs) (kept ref f),
        λ ref f. old ref (subst (λ z. StreamFailedAt z ref) (sym same) f),
      ),
    )

-- Where the invariant holds, and the connection has a context if it is marked as having one, its
-- closing returns; every response and every stream that was pending on it has failed, nothing is
-- pending on it any more, and what is pending on other connections still is.
pub close_fails_pending :
    (conn : Connection) (s : System)
    → IsMarkedRight conn
    → Inv s
    → (r : Connection × System) × (handle_close conn s ≡ ok r)
      × All (λ (e : ℕ × ℕ). FailedAt r.1.responses e.1) (inner conn.id s.pending_responses)
      × All (λ (e : ℕ × Option ℕ). StreamFailedAt r.1.streams e.1) (inner conn.id s.pending_streams)
      × ((c id : ℕ)
          → (find_at c id r.1.pending_responses
              ≡ (if conn.id == c then none else find_at c id s.pending_responses))
            × (find_at c id r.1.pending_streams
                ≡ (if conn.id == c then none else find_at c id s.pending_streams)))
close_fails_pending conn s marked v =
    let (r, e, (failed, broken, left, _, _)) = handle_close-Closed conn s marked v in
    (r, e, failed, broken, left)
