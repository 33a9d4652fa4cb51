-- ===== src/Tests/Stopping.antt =====
-- A server that stops while a response or a stream is pending, and what belongs to which connection.
use mongoose_cpp.Prelude.{
  ◌==◌, ◌≡◌, refl, ℕ, zero, suc, ap, ◌∙◌, List, false, [], ◌∷◌, Option, none, some, get_elem?,
  arith,
}
use mongoose_cpp.Table.{find, erase}
use mongoose_cpp.Mongoose.{ok}
use mongoose_cpp.Http.AsyncStream
use mongoose_cpp.Http.AsyncStream.{AsyncStream}
use mongoose_cpp.Http.AsyncStream.State.{StreamState}
use mongoose_cpp.Http.AsyncResponse.State.{ResponseState}
use mongoose_cpp.Http.Connection.{Connection, FnData}
use mongoose_cpp.Http.Endpoint.State.{
  System, deref_response, put_response, deref_stream, put_stream, new,
}
use mongoose_cpp.Http.Endpoint.Events.{dispatch, close, handle_close}
use mongoose_cpp.Http.Endpoint.Register.{on_async_request}
use mongoose_cpp.Http.Endpoint.Wakeup.Lookup.{find_at}
use mongoose_cpp.Http.Safety.Close.{FailedAt}
use mongoose_cpp.Http.Safety.Events.{late}
use mongoose_cpp.Http.Safety.Reach.{World}
use mongoose_cpp.Http.Safety.Setups.{apply_setup}
use mongoose_cpp.Http.Isolation.{IsIdle}
use mongoose_cpp.Http.Isolation.Dispatch.{dispatch-Apart}
use mongoose_cpp.Http.Isolation.World.{NoneOpen, pending_owned}
use mongoose_cpp.Http.Isolation.Stop.{Closes, done, then_close, IsStopped, stop_fails_all, can_stop}
use mongoose_cpp.Http.Numbers.Names.{IsPendingAt, number_names_one}
use mongoose_cpp.Tests.Samples.{sample_env, promoted, system_with, sample_response}
use mongoose_cpp.Tests.Running.{exact_fits}
use mongoose_cpp.Tests.Pending.{asked, asked_reached, flushing, flushing_reached}

abbrev closed : Connection
closed = record promoted { fn_data = FnData.null; tag = 0 }

abbrev at_work : World
at_work = record { conns = promoted ∷ []; system = flushing }

-- The stream has failed, and nothing is pending.
abbrev ended : System
ended = record flushing {
  endpoint = record (flushing.endpoint) { pending_responses = []; pending_streams = [] };
  streams = record { conn = 7; id = 0; bytes = []; state = StreamState.failed } ∷ [];
}

closed_served : dispatch sample_env promoted close flushing ≡ ok (closed, ended)
unfolding dispatch handle_close find erase deref_response put_response deref_stream put_stream
    apply_setup on_async_request new package.mongoose_cpp.Http.AsyncStream.mark_failed
closed_served = refl

abbrev at_rest : World
at_rest = record { conns = closed ∷ []; system = ended }

all_closed : IsStopped at_rest
all_closed zero conn h = ap (λ (c : Connection). c.tag == b'R') (same h)
  where
    same : {a b : Connection} → some a ≡ some b → b ≡ a
    same e = cc
all_closed (suc i) conn h = cc

stop_fails_all_example :
    ((c id ref : ℕ)
      → find_at c id flushing.pending_responses ≡ some ref
      → FailedAt ended.responses ref)
    × ((c id : ℕ) (ref : Option ℕ)
        → find_at c id flushing.pending_streams ≡ some ref
        → (k : ℕ) × (x : AsyncStream) × (ref ≡ some k)
          × (get_elem? ended.streams k ≡ some x)
          × ((seen : List StreamState) → AsyncStream.wait (x.state ∷ seen) ≡ some false))
    × ((c : ℕ) → IsIdle c ended)
stop_fails_all_example =
    stop_fails_all sample_env {w = at_work} {u = at_rest} exact_fits flushing_reached
      (then_close 0 promoted (closed, ended) done refl (late refl tt) closed_served) all_closed

can_stop_example :
    (u : World) × Closes sample_env (record { conns = promoted ∷ []; system = asked }) u
    × IsStopped u
can_stop_example = can_stop sample_env exact_fits asked_reached

no_eighth : NoneOpen 8 (promoted ∷ [])
no_eighth zero conn h same = absurd (seven (ap (λ (c : Connection). c.id) (first h) ∙ same))
  where
    first : {a b : Connection} → some a ≡ some b → a ≡ b
    first e = cc

    seven : ◌≡◌ {A = ℕ} 7 8 → ⊥
    seven e = omega (arith, e)
no_eighth (suc i) conn h same = cc

pending_owned_example : IsIdle 8 asked
pending_owned_example = pending_owned sample_env exact_fits asked_reached 8 no_eighth

-- One response was made, and its stream is pending.
number_names_one_example :
    ((conn : ℕ) → IsPendingAt conn 1 flushing → ⊥)
    × ((conn conn' id : ℕ)
        → IsPendingAt conn id flushing
        → IsPendingAt conn' id flushing
        → conn ≡ conn')
    × ((conn id ref : ℕ) → find_at conn id flushing.pending_responses ≡ some ref → ref ≡ id)
number_names_one_example =
    number_names_one sample_env {w = at_work} exact_fits flushing_reached (omega arith)

-- Two connections with a response each; the first is closed.
abbrev two_pending : System
two_pending =
    system_with
      (sample_response ResponseState.pending none
        ∷ record (sample_response ResponseState.pending none) { conn = 8; id = 1 }
        ∷ [])
      [] ((7, (0, 0) ∷ []) ∷ (8, (1, 1) ∷ []) ∷ []) []

abbrev one_left : System
one_left =
    system_with
      (sample_response ResponseState.failed none
        ∷ record (sample_response ResponseState.pending none) { conn = 8; id = 1 }
        ∷ [])
      [] ((8, (1, 1) ∷ []) ∷ []) []

first_closed : dispatch sample_env promoted close two_pending ≡ ok (closed, one_left)
unfolding dispatch handle_close find erase deref_response put_response
    package.mongoose_cpp.Http.AsyncResponse.mark_failed
first_closed = refl

dispatch-Apart_example :
    (find_at 8 1 one_left.pending_responses ≡ find_at 8 1 two_pending.pending_responses)
    × (find_at 8 1 one_left.pending_streams ≡ find_at 8 1 two_pending.pending_streams)
dispatch-Apart_example =
    dispatch-Apart sample_env promoted close two_pending (closed, one_left) first_closed 8 1 refl
