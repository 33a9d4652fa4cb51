-- ===== src/Http/Safety/Reach.antt =====
-- An endpoint with its connections, its users and the threads of its producers, in any order of their
-- steps.
use mongoose_cpp.Prelude.{
  ℕ, ◌≡◌, subst, List, [], ◌∷◌, ◌++◌, some, Bytes, arith, get_elem?, set, get_elem?-append_cases,
  get_elem?-set_cases, inl, inr,
}
use mongoose_cpp.Table.{find}
use mongoose_cpp.Mongoose.{Wakeup, ok}
use mongoose_cpp.Http.Connection.{Connection}
use mongoose_cpp.Http.Endpoint.State.{
  System, Env, AsyncAction, boot, new, user_action, stream_send, stream_close,
}
use mongoose_cpp.Http.Endpoint.Events.{Event, dispatch}
use mongoose_cpp.Http.Safety.Inv.{Inv}
use mongoose_cpp.Http.Safety.Users.{user_action-Inv, stream_send-Inv, stream_close-Inv}
use mongoose_cpp.Http.Safety.Message.{CapturesFit}
use mongoose_cpp.Http.Safety.Events.{IsNew, IsGood, Delivers, dispatch-Served}
use mongoose_cpp.Http.Safety.Setups.{Setup, apply_setup, setup_keeps, setup-Inv}

pub record World : Type 0 where
  pub conns : List Connection
  pub system : System

-- One step: a connection is opened, its send buffer changes, an event of it is served, the endpoint is
-- set up further, or a thread of the user calls a response or a stream.
pub data Step (env : Env) (w : World) : World → Type 0 where
  opens : (conn : Connection) → IsNew conn → Step env w (record w { conns = w.conns ++ conn ∷ [] })
  drains :
      (i len : ℕ) (conn : Connection)
      → get_elem? w.conns i ≡ some conn
      → Step env w (record w { conns = set w.conns i (record conn { send_len = len }) })
  serves :
      (i : ℕ) (conn : Connection) (ev : Event) (r : Connection × System)
      → get_elem? w.conns i ≡ some conn
      → Delivers conn ev
      → dispatch env conn ev w.system ≡ ok r
      → Step env w (record { conns = set w.conns i r.0; system = r.1 })
  sets_up :
      (c : Setup)
      → Step env w (record w {
        system = record w.system { endpoint = apply_setup env.header_order w.system.endpoint c };
      })
  responds :
      (ref : ℕ) (a : AsyncAction)
      → Step env w (record w { system = user_action env w.system ref a })
  sends :
      (ref : ℕ) (body : Bytes) (answer : Wakeup)
      → Step env w (record w { system = stream_send w.system ref body answer })
  closes :
      (ref : ℕ) (answer : Wakeup)
      → Step env w (record w { system = stream_close w.system ref answer })

pub data Reach (env : Env) (w : World) : World → Type 0 where
  here : Reach env w w
  next : {t u : World} → Reach env w t → Step env t u → Reach env w u

-- The invariant of the endpoint, and good connections.
pub record WorldInv (w : World) : Type 0 where
  pub system_inv : Inv w.system
  pub conns_good : (i : ℕ) (conn : Connection) → get_elem? w.conns i ≡ some conn → IsGood conn

IsGood-append :
    (conns : List Connection) (conn : Connection)
    → ((i : ℕ) (c : Connection) → get_elem? conns i ≡ some c → IsGood c)
    → IsGood conn
    → (i : ℕ) (c : Connection) → get_elem? (conns ++ conn ∷ []) i ≡ some c
    → IsGood c
IsGood-append conns conn all one i c h = elim (get_elem?-append_cases conns conn i h) [
  | inl old ↦ all i c old
  | inr e ↦ subst IsGood e one
]

IsGood-set :
    (conns : List Connection) (k : ℕ) (conn : Connection)
    → ((i : ℕ) (c : Connection) → get_elem? conns i ≡ some c → IsGood c)
    → IsGood conn
    → (i : ℕ) (c : Connection) → get_elem? (set conns k conn) i ≡ some c
    → IsGood c
IsGood-set conns k conn all one i c h = elim (get_elem?-set_cases conns k conn i h) [
  | inl old ↦ all i c old
  | inr e ↦ subst IsGood e one
]

drained : (conn : Connection) (len : ℕ) → IsGood conn → IsGood (record conn { send_len = len })
drained conn len (inl n) =
    inl (record { held = n.held; handler = n.handler; unmarked = n.unmarked })
drained conn len (inr (inl p)) =
    inr (inl (record { remote = p.remote; held = p.held; handler = p.handler; marked = p.marked }))
drained conn len (inr (inr h)) = inr (inr h)

Step-WorldInv : (env : Env) {w u : World} → CapturesFit env → Step env w u → WorldInv w → WorldInv u
Step-WorldInv env {w} fit (opens conn n) v = record {
  system_inv = v.system_inv;
  conns_good = IsGood-append w.conns conn v.conns_good (inl n);
}
Step-WorldInv env {w} fit (drains i len conn h) v = record {
  system_inv = v.system_inv;
  conns_good = IsGood-set w.conns i _ v.conns_good (drained conn len (v.conns_good i conn h));
}
Step-WorldInv env {w} fit (serves i conn ev r h d e) v =
    let (q, p, good, inv) =
      dispatch-Served env conn ev w.system fit (v.conns_good i conn h) d v.system_inv in
    let same : q ≡ r = cc (p, e) in
    record {
      system_inv = subst (λ z. Inv z.1) same inv;
      conns_good = IsGood-set w.conns i r.0 v.conns_good (subst (λ z. IsGood z.0) same good);
    }
Step-WorldInv env {w} fit (sets_up c) v = record {
  system_inv = setup-Inv w.system _ (setup_keeps env.header_order w.system.endpoint c) v.system_inv;
  conns_good = v.conns_good;
}
Step-WorldInv env {w} fit (responds ref a) v = record {
  system_inv = user_action-Inv env w.system ref a v.system_inv;
  conns_good = v.conns_good;
}
Step-WorldInv env {w} fit (sends ref body answer) v = record {
  system_inv = stream_send-Inv w.system ref body answer v.system_inv;
  conns_good = v.conns_good;
}
Step-WorldInv env {w} fit (closes ref answer) v = record {
  system_inv = stream_close-Inv w.system ref answer v.system_inv;
  conns_good = v.conns_good;
}

-- A new endpoint, with no connection.
unfoldable pub start : World
start = record { conns = []; system = boot new }

start-WorldInv : WorldInv start
unfolding start boot new find
start-WorldInv = record {
  system_inv = record {
    responses_keys = tt;
    streams_keys = tt;
    responses_unique = λ conn t h. cc;
    streams_unique = λ conn t h. cc;
    responses_valid = λ conn id ref h. cc;
    streams_valid = λ conn id ref h. cc;
    groups_counted = tt;
  };
  conns_good = λ i conn h. ground arith;
}

pub Reach-WorldInv : (env : Env) {w : World} → CapturesFit env → Reach env start w → WorldInv w
Reach-WorldInv env fit here = start-WorldInv
Reach-WorldInv env fit (next r st) = Step-WorldInv env fit st (Reach-WorldInv env fit r)

-- In every world that a new endpoint reaches, by any steps of its connections, its users and their
-- threads in any order, an event that mongoose delivers is served: the call returns, with no bad cast,
-- no null pointer and no write past the vector of captures, provided that a match never makes more
-- captures than its pattern has wildcards.
pub reachable_served :
    (env : Env) {w : World} (i : ℕ) (conn : Connection) (ev : Event)
    → CapturesFit env
    → Reach env start w
    → get_elem? w.conns i ≡ some conn
    → Delivers conn ev
    → (r : Connection × System) × (dispatch env conn ev w.system ≡ ok r)
reachable_served env {w} i conn ev fit r h d =
    let v = Reach-WorldInv env fit r in
    let (q, p, _, _) =
      dispatch-Served env conn ev w.system fit (v.conns_good i conn h) d v.system_inv in
    (q, p)
