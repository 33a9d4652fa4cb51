-- ===== src/Http/Isolation/World.antt =====
-- What is pending in a world that is reached belongs to connections that are accepted and not closed.
use mongoose_cpp.Prelude.{
  ◌==◌, ==_iff, ◌≢◌, ℕ, ◌≡◌, refl, ◌∙◌, ap, sym, subst, true, false, List, [], ◌∷◌, none, some,
  arith, get_elem?, set, get_elem?-lt, get_elem?-set_self, get_elem?-set_ne, get_elem?-append_left,
  Bool-cases, inl, inr, ◌⊎◌, Bytes, Option-cases,
}
use mongoose_cpp.Mongoose.{ok, Wakeup}
use mongoose_cpp.Table.{find}
use mongoose_cpp.Http.Connection.{Connection}
use mongoose_cpp.Http.Endpoint.State.{
  System, Env, stream_send, stream_close, user_action, boot, new,
}
use mongoose_cpp.Http.Endpoint.Events.{
  Event, accept, poll, write, close, other, tls_hs, http_msg, wakeup, handle, dispatch,
}
use mongoose_cpp.Http.Endpoint.Wakeup.Lookup.{find_at}
use mongoose_cpp.Http.Safety.Close.{IsMarkedRight}
use mongoose_cpp.Http.Safety.Inv.{Inv}
use mongoose_cpp.Http.Safety.Message.{CapturesFit}
use mongoose_cpp.Http.Safety.Events.{
  IsLate, Delivers, early, late, promoted_of_mark, dispatch-handle,
}
use mongoose_cpp.Http.Safety.Failures.{handle_close-Closed}
use mongoose_cpp.Http.Safety.Setups.{apply_setup, setup_keeps}
use mongoose_cpp.Http.Safety.Reach.{
  World, Step, opens, drains, serves, sets_up, responds, sends, closes, Reach, here, next, start,
  WorldInv, Reach-WorldInv,
}
use mongoose_cpp.Http.Isolation.{Leaves-ok, IsIdle, Stays-same}
use mongoose_cpp.Http.Isolation.Message.{Kept, user_action-endpoint}
use mongoose_cpp.Http.Isolation.Dispatch.{IsOngoing, handle-Kept, handle-IsIdle, dispatch-Apart}

-- No connection with the id is accepted and not closed: its mark says so.
abbrev pub NoneOpen : ℕ → List Connection → Type 0
NoneOpen c conns =
    (i : ℕ) (conn : Connection)
    → get_elem? conns i ≡ some conn
    → conn.id ≡ c
    → (conn.tag == b'R') ≡ false

-- Under an id that no open connection has, nothing is pending.
abbrev pub IsOwned : World → Type 0
IsOwned w = (c : ℕ) → NoneOpen c w.conns → IsIdle c w.system

-- A connection is replaced by one that has the id, or the mark, no more.
NoneOpen-set :
    (c : ℕ) (conns : List Connection) (k : ℕ) (conn conn' : Connection)
    → get_elem? conns k ≡ some conn
    → (conn.id ≡ c → (conn.tag == b'R') ≡ false)
    → NoneOpen c (set conns k conn')
    → NoneOpen c conns
NoneOpen-set c conns k conn conn' h shut rest i d e same = elim (Bool-cases (k == i)) [
  | inl p ↦
      let here : some conn ≡ some d = sym h ∙ ap (get_elem? conns) ((==_iff k i).0 p) ∙ e in
      let there : conn ≡ d = some_eq here in
      subst (λ z. (z.tag == b'R') ≡ false) there (shut (ap (λ z. z.id) there ∙ same))
  | inr p ↦ rest i d (get_elem?-set_ne conns conn' (apart k i p) ∙ e) same
]
  where
    some_eq : {a b : Connection} → some a ≡ some b → a ≡ b
    some_eq e = cc

    apart : (a b : ℕ) → (a == b) ≡ false → a ≢ b
    apart a b p e = ground arith

-- What stands at the place that was written.
NoneOpen-at :
    (c : ℕ) (conns : List Connection) (k : ℕ) (conn conn' : Connection)
    → get_elem? conns k ≡ some conn
    → NoneOpen c (set conns k conn')
    → conn'.id ≡ c
    → (conn'.tag == b'R') ≡ false
NoneOpen-at c conns k conn conn' h rest =
    rest k conn' (get_elem?-set_self conns k conn' (get_elem?-lt conns k h))

closed-IsIdle :
    (env : Env) (conn : Connection) (s : System) (r : Connection × System)
    → IsMarkedRight conn
    → Inv s
    → handle env conn close s ≡ ok r
    → IsIdle conn.id r.1
unfolding handle
closed-IsIdle env conn s r marked v e =
    let (q, p, (_, _, left, _, _)) = handle_close-Closed conn s marked v in
    let same : q ≡ r = cc (p, e) in
    λ id.
      subst
        (λ z.
          (find_at conn.id id z.1.pending_responses ≡ none)
          × (find_at conn.id id z.1.pending_streams ≡ none))
        same (ground (arith, (left conn.id id).0), ground (arith, (left conn.id id).1))

-- After an event of an accepted connection that is not its end, the connection is still open.
late_open :
    (env : Env) (conn : Connection) (ev : Event) (s : System) (r : Connection × System)
    → IsOngoing ev
    → conn.tag ≡ b'R'
    → handle env conn ev s ≡ ok r
    → (r.0.id ≡ conn.id) × ((r.0.tag == b'R') ≡ true)
late_open env conn ev s r o m e =
    let k = Leaves-ok (Kept conn s) (handle env conn ev s) r e (handle-Kept env conn ev s o) in
    (k.1, ap (λ z. z == b'R') (k.2 ∙ m))

close_or_not : (ev : Event) → (ev ≡ close) ⊎ (ev ≢ close)
close_or_not accept = inr (λ e. cc)
close_or_not poll = inr (λ e. cc)
close_or_not write = inr (λ e. cc)
close_or_not other = inr (λ e. cc)
close_or_not close = inl refl
close_or_not (tls_hs peer) = inr (λ e. cc)
close_or_not (http_msg msg) = inr (λ e. cc)
close_or_not (wakeup id) = inr (λ e. cc)

ongoing : (ev : Event) → IsLate ev → ev ≢ close → IsOngoing ev
ongoing accept l h = l
ongoing close l h = h refl
ongoing poll l h = tt
ongoing write l h = tt
ongoing other l h = tt
ongoing (tls_hs peer) l h = tt
ongoing (http_msg msg) l h = tt
ongoing (wakeup id) l h = tt

-- What the event leaves under the connection's own id, when no open connection has that id.
own-IsIdle :
    (env : Env) (w : World) (i : ℕ) (conn : Connection) (ev : Event) (r : Connection × System)
    → WorldInv w
    → IsOwned w
    → get_elem? w.conns i ≡ some conn
    → Delivers conn ev
    → handle env conn ev w.system ≡ ok r
    → NoneOpen conn.id (set w.conns i r.0)
    → IsIdle conn.id r.1
own-IsIdle env w i conn ev r v o h (early f n l) e rest = elim (close_or_not ev) [
  | inl q ↦
      closed-IsIdle env conn w.system r (λ marked. cc (marked, n.unmarked)) v.system_inv
        (ap (λ z. handle env conn z w.system) (sym q) ∙ e)
  | inr q ↦
      Leaves-ok (λ (z : Connection × System). IsIdle conn.id z.1) (handle env conn ev w.system) r e
        (handle-IsIdle env conn ev w.system l
          (o conn.id (NoneOpen-set conn.id w.conns i conn r.0 h (λ _. n.unmarked) rest)) q)
]
own-IsIdle env w i conn ev r v o h (late m l) e rest = elim (close_or_not ev) [
  | inl q ↦
      let p = promoted_of_mark conn m (v.conns_good i conn h) in
      closed-IsIdle env conn w.system r (λ _. (p.remote, p.held)) v.system_inv
        (ap (λ z. handle env conn z w.system) (sym q) ∙ e)
  | inr q ↦
      let (same, opened) = late_open env conn ev w.system r (ongoing ev l q) m e in
      let shut = NoneOpen-at conn.id w.conns i conn r.0 h rest same in
      absurd (true_ne_false (sym opened ∙ shut))
]
  where
    true_ne_false : true ≢ false
    true_ne_false e = cc

serves-IsOwned :
    (env : Env) (w : World) (i : ℕ) (conn : Connection) (ev : Event) (r : Connection × System)
    → WorldInv w
    → IsOwned w
    → get_elem? w.conns i ≡ some conn
    → Delivers conn ev
    → dispatch env conn ev w.system ≡ ok r
    → IsOwned (record { conns = set w.conns i r.0; system = r.1 })
serves-IsOwned env w i conn ev r v o h d e c rest = elim (Bool-cases (conn.id == c)) [
  | inl p ↦
      let same : conn.id ≡ c = (==_iff conn.id c).0 p in
      let handled = sym (dispatch-handle env conn ev w.system (v.conns_good i conn h) d) ∙ e in
      subst (λ z. IsIdle z r.1) same
        (own-IsIdle env w i conn ev r v o h d handled
          (subst (λ z. NoneOpen z (set w.conns i r.0)) (sym same) rest))
  | inr p ↦
      let idle =
        o c (NoneOpen-set c w.conns i conn r.0 h (λ same. absurd (differ conn.id c p same)) rest) in
      λ id.
        let apart = dispatch-Apart env conn ev w.system r e c id p in
        (apart.0 ∙ (idle id).0, apart.1 ∙ (idle id).1)
]
  where
    differ : (a b : ℕ) → (a == b) ≡ false → a ≢ b
    differ a b p e = ground arith

IsIdle-same :
    (c : ℕ) (s s' : System)
    → s'.pending_responses ≡ s.pending_responses
    → s'.pending_streams ≡ s.pending_streams
    → IsIdle c s
    → IsIdle c s'
IsIdle-same c s s' p q = (Stays-same c s s' p q).1

stream_send-endpoint :
    (s : System) (ref : ℕ) (body : Bytes) (answer : Wakeup)
    → (stream_send s ref body answer).endpoint ≡ s.endpoint
unfolding stream_send
stream_send-endpoint s ref body answer = elim (Option-cases (get_elem? s.streams ref)) [
  | inl e ↦ rw (e, stream_send)
  | inr (x, e) ↦ rw (e, stream_send)
]

stream_close-endpoint :
    (s : System) (ref : ℕ) (answer : Wakeup) → (stream_close s ref answer).endpoint ≡ s.endpoint
unfolding stream_close
stream_close-endpoint s ref answer = elim (Option-cases (get_elem? s.streams ref)) [
  | inl e ↦ rw (e, stream_close)
  | inr (x, e) ↦ rw (e, stream_close)
]

-- A step that leaves the endpoint's maps and the connections alone.
IsOwned-pending :
    (w : World) (s : System)
    → s.pending_responses ≡ w.system.pending_responses
    → s.pending_streams ≡ w.system.pending_streams
    → IsOwned w
    → IsOwned (record w { system = s })
IsOwned-pending w s p q o c rest = IsIdle-same c w.system s p q (o c rest)

IsOwned-endpoint :
    (w : World) (s : System)
    → s.endpoint ≡ w.system.endpoint
    → IsOwned w
    → IsOwned (record w { system = s })
IsOwned-endpoint w s e =
    IsOwned-pending w s (ap (λ z. z.pending_responses) e) (ap (λ z. z.pending_streams) e)

pub Step-IsOwned : (env : Env) {w u : World} → Step env w u → WorldInv w → IsOwned w → IsOwned u
Step-IsOwned env {w} (opens conn n) v o = λ c rest.
    o c (λ i d e.
      rest i d (get_elem?-append_left w.conns (conn ∷ []) i (get_elem?-lt w.conns i e) ∙ e))
Step-IsOwned env {w} (drains i len conn h) v o = λ c rest. o c (
    NoneOpen-set c w.conns i conn (record conn { send_len = len }) h
      (NoneOpen-at c w.conns i conn (record conn { send_len = len }) h rest) rest)
Step-IsOwned env {w} (serves i conn ev r h d e) v o = serves-IsOwned env w i conn ev r v o h d e
Step-IsOwned env {w} (sets_up c) v o =
    let e = apply_setup env.header_order w.system.endpoint c in
    let keep = setup_keeps env.header_order w.system.endpoint c in
    IsOwned-pending w (record w.system { endpoint = e }) keep.0 keep.1 o
Step-IsOwned env {w} (responds ref a) v o =
    IsOwned-endpoint w (user_action env w.system ref a) (user_action-endpoint env w.system ref a) o
Step-IsOwned env {w} (sends ref body answer) v o =
    IsOwned-endpoint w (stream_send w.system ref body answer)
      (stream_send-endpoint w.system ref body answer) o
Step-IsOwned env {w} (closes ref answer) v o =
    IsOwned-endpoint w (stream_close w.system ref answer)
      (stream_close-endpoint w.system ref answer) o

start-IsOwned : IsOwned start
unfolding start boot new find
start-IsOwned c rest id = (refl, refl)

-- In every world that a new endpoint reaches, what is pending is pending under the id of a connection
-- that is accepted and not closed: under any other id there is nothing.
pub pending_owned :
    (env : Env) {w : World}
    → CapturesFit env
    → Reach env start w
    → (c : ℕ) → NoneOpen c w.conns
    → IsIdle c w.system
pending_owned env fit here = start-IsOwned
pending_owned env fit (next r st) =
    Step-IsOwned env st (Reach-WorldInv env fit r) (pending_owned env fit r)
