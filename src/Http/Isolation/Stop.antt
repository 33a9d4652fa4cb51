-- ===== src/Http/Isolation/Stop.antt =====
-- The end of a server: server::stop of src/server.cpp calls mg_mgr_free, of which mongoose documents
-- that every connection gets its close event. The order of these events is mongoose's.
use mongoose_cpp.Prelude.{
  ◌==◌, ==_iff, ℕ, zero, suc, ◌+◌, ◌<◌, ◌≡◌, ◌∙◌, ap, sym, subst, false, List, ◌∷◌, Option, none,
  some, arith, get_elem?, set, length, length-set, get_elem?-lt, get_elem?-of_lt,
  get_elem?-set_self, get_elem?-set_ne, Bool-cases, inl, inr, ◌⊎◌,
}
use mongoose_cpp.Mongoose.{ok}
use mongoose_cpp.Http.AsyncStream
use mongoose_cpp.Http.AsyncStream.{AsyncStream}
use mongoose_cpp.Http.AsyncStream.State.{StreamState}
use mongoose_cpp.Http.Connection.{Connection}
use mongoose_cpp.Http.Endpoint.State.{System, Env}
use mongoose_cpp.Http.Endpoint.Events.{close, handle, dispatch}
use mongoose_cpp.Http.Endpoint.Wakeup.Lookup.{find_at}
use mongoose_cpp.Http.Safety.Close.{FailedAt, handle_close-Inv}
use mongoose_cpp.Http.Safety.Closing.{StreamFailedAt}
use mongoose_cpp.Http.Safety.Failures.{Closed}
use mongoose_cpp.Http.Safety.Inv.{Inv}
use mongoose_cpp.Http.Safety.Message.{CapturesFit}
use mongoose_cpp.Http.Safety.Events.{Delivers, late, promoted_of_mark, dispatch-handle, IsGood}
use mongoose_cpp.Http.Safety.Reach.{World, Reach, start, Reach-WorldInv, Step}
use mongoose_cpp.Http.Isolation.{IsIdle}
use mongoose_cpp.Http.Isolation.Close.{close_lem, inner-at}
use mongoose_cpp.Http.Isolation.World.{pending_owned}

-- Nothing but close events.
pub data Closes (env : Env) (w : World) : World → Type 0 where
  done : Closes env w w
  then_close :
      {t : World} (i : ℕ) (conn : Connection) (r : Connection × System)
      → Closes env w t
      → get_elem? t.conns i ≡ some conn
      → Delivers conn close
      → dispatch env conn close t.system ≡ ok r
      → Closes env w (record { conns = set t.conns i r.0; system = r.1 })

-- No connection is accepted and not closed.
abbrev pub IsStopped : World → Type 0
IsStopped w =
    (i : ℕ) (conn : Connection) → get_elem? w.conns i ≡ some conn → (conn.tag == b'R') ≡ false

Closes-Reach : (env : Env) {w u : World} → Reach env start w → Closes env w u → Reach env start u
Closes-Reach env r done = r
Closes-Reach env r (then_close i conn q c h d e) =
    Reach.next (Closes-Reach env r c) (Step.serves i conn close q h d e)

-- What was pending in the first world has failed in the second, or still is pending.
pub record Ends (w u : World) : Type 0 where
  pub responses_end :
      (c id ref : ℕ)
      → find_at c id w.system.pending_responses ≡ some ref
      → FailedAt u.system.responses ref ⊎ (find_at c id u.system.pending_responses ≡ some ref)
  pub streams_end :
      (c id : ℕ) (ref : Option ℕ)
      → find_at c id w.system.pending_streams ≡ some ref
      → StreamFailedAt u.system.streams ref ⊎ (find_at c id u.system.pending_streams ≡ some ref)

close-Ends :
    (w t : World) (conn : Connection) (conns : List Connection) (s : System)
    → Ends w t
    → Closed conn t.system s
    → Ends w (record { conns = conns; system = s })
close-Ends w t conn conns s k (failed, broken, left, kept, old) = record {
  responses_end = λ c id ref e. elim (k.responses_end c id ref e) [
    | inl f ↦ inl (kept ref f)
    | inr p ↦ elim (Bool-cases (conn.id == c)) [
      | inl q ↦ inl (
          inner-at (FailedAt s.responses) conn.id id t.system.pending_responses failed (
            subst (λ z. find_at z id t.system.pending_responses ≡ some ref)
              (sym ((==_iff conn.id c).0 q)) p))
      | inr q ↦ inr ((left c id).0 ∙ rw q p)
    ]
  ];
  streams_end = λ c id ref e. elim (k.streams_end c id ref e) [
    | inl f ↦ inl (old ref f)
    | inr p ↦ elim (Bool-cases (conn.id == c)) [
      | inl q ↦ inl (
          inner-at (StreamFailedAt s.streams) conn.id id t.system.pending_streams broken (
            subst (λ z. find_at z id t.system.pending_streams ≡ some ref)
              (sym ((==_iff conn.id c).0 q)) p))
      | inr q ↦ inr ((left c id).1 ∙ rw q p)
    ]
  ];
}

Closes-Ends :
    (env : Env) {w u : World} → CapturesFit env → Reach env start w → Closes env w u → Ends w u
Closes-Ends env fit r done = record {
  responses_end = λ c id ref e. inr e;
  streams_end = λ c id ref e. inr e;
}
Closes-Ends env {w} fit r (then_close {t} i conn q c h d e) =
    let v = Reach-WorldInv env fit (Closes-Reach env r c) in
    close-Ends w t conn (set t.conns i q.0) q.1 (Closes-Ends env fit r c)
      (close_lem env conn t.system q (v.conns_good i conn h) d v.system_inv e)

waits_false :
    (x : AsyncStream) (seen : List StreamState)
    → x.state ≡ StreamState.failed
    → AsyncStream.wait (x.state ∷ seen) ≡ some false
unfolding AsyncStream.wait
waits_false x seen e = ap (λ z. AsyncStream.wait (z ∷ seen)) e

-- When the server stops, each connection that was accepted and not closed gets its close event, in
-- any order. From any world that a new endpoint reaches, these events leave nothing pending; every
-- response that was pending has failed, and so has every stream, so that a thread which waits on it
-- goes on, with the answer false.
pub stop_fails_all :
    (env : Env) {w u : World}
    → CapturesFit env
    → Reach env start w
    → Closes env w u
    → IsStopped u
    → ((c id ref : ℕ)
        → find_at c id w.system.pending_responses ≡ some ref
        → FailedAt u.system.responses ref)
      × ((c id : ℕ) (ref : Option ℕ)
          → find_at c id w.system.pending_streams ≡ some ref
          → (k : ℕ) × (x : AsyncStream) × (ref ≡ some k)
            × (get_elem? u.system.streams k ≡ some x)
            × ((seen : List StreamState) → AsyncStream.wait (x.state ∷ seen) ≡ some false))
      × ((c : ℕ) → IsIdle c u.system)
stop_fails_all env {w} {u} fit r cs stopped =
    let k = Closes-Ends env fit r cs in
    let idle : (c : ℕ) → IsIdle c u.system =
      λ c. pending_owned env fit (Closes-Reach env r cs) c (λ i conn h _. stopped i conn h) in
    (
      λ c id ref e. elim (k.responses_end c id ref e) [
        | inl f ↦ f
        | inr p ↦ absurd (none_some (sym ((idle c id).0) ∙ p))
      ],
      λ c id ref e. elim (k.streams_end c id ref e) [
        | inl (n, x, a, b, f) ↦ (n, x, a, b, λ seen. waits_false x seen f)
        | inr p ↦ absurd (none_some (sym ((idle c id).1) ∙ p))
      ],
      idle,
    )
  where
    none_some : {A : Type 0} {x : A} → ◌≡◌ {A = Option A} none (some x) → ⊥
    none_some e = cc

-- A connection that is accepted and not closed can be closed, and is not marked any more.
close_one :
    (env : Env) (conn : Connection) (s : System)
    → IsGood conn
    → conn.tag ≡ b'R'
    → Inv s
    → (r : Connection × System) × (dispatch env conn close s ≡ ok r) × ((r.0.tag == b'R') ≡ false)
unfolding handle
close_one env conn s good m v =
    let p = promoted_of_mark conn m good in
    let (r, e, unmarked, _) = handle_close-Inv conn s (λ _. (p.remote, p.held)) v in
    (r, dispatch-handle env conn close s good (late m tt) ∙ e, unmarked)

-- The connections before a position are not accepted, or closed.
abbrev ShutBelow : ℕ → List Connection → Type 0
ShutBelow k conns =
    (i : ℕ) (conn : Connection) → i < k → get_elem? conns i ≡ some conn → (conn.tag == b'R') ≡ false

ShutBelow-suc :
    (k : ℕ) (conns : List Connection) (conn : Connection)
    → get_elem? conns k ≡ some conn
    → (conn.tag == b'R') ≡ false
    → ShutBelow k conns
    → ShutBelow (suc k) conns
ShutBelow-suc k conns conn h p shut i d lt e = elim (Bool-cases (k == i)) [
  | inl q ↦
      let here : some conn ≡ some d = sym h ∙ ap (get_elem? conns) ((==_iff k i).0 q) ∙ e in
      subst (λ z. (z.tag == b'R') ≡ false) (some_eq here) p
  | inr q ↦ shut i d (ground arith) e
]
  where
    some_eq : {a b : Connection} → some a ≡ some b → a ≡ b
    some_eq e = cc

ShutBelow-set :
    (k : ℕ) (conns : List Connection) (conn : Connection)
    → ShutBelow k conns
    → ShutBelow k (set conns k conn)
ShutBelow-set k conns conn shut i d lt e =
    shut i d lt (sym (get_elem?-set_ne conns conn (λ q. absurd (omega (arith, q)))) ∙ e)

-- The connections from a position on can be closed.
closing :
    (env : Env) (n k : ℕ) (w t : World)
    → CapturesFit env
    → Reach env start w
    → Closes env w t
    → k + n ≡ length t.conns
    → ShutBelow k t.conns
    → (u : World) × Closes env w u × IsStopped u
closing env zero k w t fit r cs count shut =
    (t, cs, λ i conn h. shut i conn (omega (arith, get_elem?-lt t.conns i h)) h)
closing env (suc n) k w t fit r cs count shut =
    let (conn, h) = get_elem?-of_lt t.conns k (omega arith) in
    elim (Bool-cases (conn.tag == b'R')) [
      | inr p ↦
          closing env n (suc k) w t fit r cs (omega arith) (ShutBelow-suc k t.conns conn h p shut)
      | inl p ↦
          let v = Reach-WorldInv env fit (Closes-Reach env r cs) in
          let m : conn.tag ≡ b'R' = (==_iff conn.tag b'R').0 p in
          let (q, e, unmarked) =
            close_one env conn t.system (v.conns_good k conn h) m v.system_inv in
          let t' : World = record { conns = set t.conns k q.0; system = q.1 } in
          closing env n (suc k) w t' fit r (then_close k conn q cs h (late m tt) e)
            (omega (arith, length-set t.conns k q.0))
            (ShutBelow-suc k t'.conns q.0
              (get_elem?-set_self t.conns k q.0 (get_elem?-lt t.conns k h)) unmarked
              (ShutBelow-set k t.conns q.0 shut))
    ]

-- From every world that a new endpoint reaches, close events alone lead to one where no connection is
-- accepted and not closed.
pub can_stop :
    (env : Env) {w : World}
    → CapturesFit env
    → Reach env start w
    → (u : World) × Closes env w u × IsStopped u
can_stop env {w} fit r =
    closing env (length w.conns) 0 w w fit r done (omega arith)
      (λ i conn lt e. absurd (omega arith))
