-- ===== src/Tests/Running.antt =====
-- The endpoint as it runs: a connection is accepted, a request arrives, and its answer is delivered.
use mongoose_cpp.Prelude.{
  ◌≡◌, ◌≤◌, refl, subst, List, [], ◌∷◌, some, none, codes, pos, arith, Bool-cases, inl, inr,
  bytes_eq, length,
}
use mongoose_cpp.Table.Order.{insertion_order}
use mongoose_cpp.Mongoose.{ok, posted}
use mongoose_cpp.Http.Connection.{Connection, format_ip}
use mongoose_cpp.Http.Request.{Request, Message}
use mongoose_cpp.Http.Endpoint.State.{System, AsyncAction, send, boot, new}
use mongoose_cpp.Http.Endpoint.Events.{dispatch, accept, close, http_msg}
use mongoose_cpp.Http.Endpoint.Register.{count_groups, on_async_request}
use mongoose_cpp.Http.Safety.Message.{CapturesFit}
use mongoose_cpp.Http.Safety.Inv.{Inv}
use mongoose_cpp.Http.Safety.Events.{IsGood, early, late, dispatch-Served}
use mongoose_cpp.Http.Safety.Reach.{
  World, Reach, here, next, opens, sets_up, serves, start, reachable_served, Reach-WorldInv,
}
use mongoose_cpp.Http.Safety.Setups.{async_requests, apply_setup}
use mongoose_cpp.Tests.Samples.{sample_env, sample_context, accepted, promoted, system_with}

pub exact_fits : CapturesFit sample_env
exact_fits uri pattern' captures e = elim (Bool-cases (bytes_eq uri pattern')) [
  | inl p ↦
      let q : some [] ≡ some captures = rw p at e in
      let n : [] ≡ captures = cc q in subst (λ c. length c ≤ count_groups pattern') n (omega arith)
  | inr p ↦ (let q : none ≡ some captures = rw p at e in cc q)
]

abbrev pub answer : Request → List AsyncAction
answer request = send (pos 200) (codes "hi") posted ∷ []

-- With one listener, with a connection, and after it was accepted.
abbrev pub set_up : System
set_up = record (system_with [] [] [] []) {
  endpoint = apply_setup insertion_order new (async_requests (codes "/who") answer);
}

abbrev pub running : World
running = record { conns = promoted ∷ []; system = set_up }

accept_served : dispatch sample_env accepted accept set_up ≡ ok (promoted, set_up)
unfolding dispatch apply_setup on_async_request new format_ip
accept_served = refl

pub running_reached : Reach sample_env start running
unfolding boot new start
running_reached =
    next
      (next (next here (sets_up (async_requests (codes "/who") answer)))
        (opens accepted (record { held = refl; handler = refl; unmarked = refl })))
      (serves 0 accepted accept (promoted, set_up) refl
        (early refl (record { held = refl; handler = refl; unmarked = refl }) tt) accept_served)

abbrev pub who : Message
who = record {
  method = codes "GET";
  uri = codes "/who";
  query = [];
  proto = codes "HTTP/1.1";
  headers = [];
  body = [];
}

reachable_served_example :
    (r : Connection × System) × (dispatch sample_env promoted (http_msg who) set_up ≡ ok r)
reachable_served_example =
    reachable_served sample_env 0 promoted (http_msg who) exact_fits running_reached refl
      (late refl tt)

dispatch-Served_example :
    (r : Connection × System) × (dispatch sample_env promoted close set_up ≡ ok r)
    × IsGood r.0
    × Inv r.1
dispatch-Served_example =
    dispatch-Served sample_env promoted close set_up exact_fits
      (inr (inl (record { remote = sample_context; held = refl; handler = refl; marked = refl })))
      (late refl tt) ((Reach-WorldInv sample_env exact_fits running_reached).system_inv)
