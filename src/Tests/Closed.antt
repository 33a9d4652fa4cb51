-- ===== src/Tests/Closed.antt =====
-- A thread that answers a request: in time, after the connection was closed, and while its stream is
-- overtaken by the wake-up.
use mongoose_cpp.Prelude.{
  get_elem?, arith, ℕ, ◌≡◌, ◌≢◌, refl, List, [], ◌∷◌, codes, pos, negsuc, none, some,
}
use mongoose_cpp.Table.{find, erase}
use mongoose_cpp.Mongoose.{ok, posted, http_reply}
use mongoose_cpp.Http.Headers.{default_line, format, format_loop}
use mongoose_cpp.Http.AsyncResponse.{AsyncResponse, stream_prepare}
use mongoose_cpp.Http.AsyncStream.{AsyncStream}
use mongoose_cpp.Http.AsyncStream.State.{StreamState}
use mongoose_cpp.Http.Endpoint.Wakeup.{handle_wakeup}
use mongoose_cpp.Http.Endpoint.Wakeup.Race.{early_wakeup_loses_stream}
use mongoose_cpp.Http.AsyncResponse.State.{ResponseState}
use mongoose_cpp.Http.Connection.{Connection, FnData}
use mongoose_cpp.Http.Endpoint.State.{
  System, AsyncAction, deref_response, put_response, new, send, user_action, user_actions,
}
use mongoose_cpp.Http.Endpoint.Events.{dispatch, close, handle_close, wakeup}
use mongoose_cpp.Http.Endpoint.Register.{on_async_request}
use mongoose_cpp.Http.Endpoint.Wakeup.Lookup.{find_at}
use mongoose_cpp.Http.Safety.Close.{FailedAt}
use mongoose_cpp.Http.Safety.Events.{late}
use mongoose_cpp.Http.Safety.Reach.{here, next, responds, Reach-WorldInv}
use mongoose_cpp.Http.Safety.Setups.{apply_setup}
use mongoose_cpp.Http.Delivery.World.{pending_answer_delivered}
use mongoose_cpp.Http.Lost.Forever.{closed_for_good}
use mongoose_cpp.Tests.Samples.{sample_env, promoted}
use mongoose_cpp.Tests.Running.{exact_fits}
use mongoose_cpp.Tests.Pending.{asked, asked_reached}

-- The only response, which waits for its answer.
abbrev waiting : AsyncResponse
waiting = record {
  conn = 7;
  id = 0;
  headers = [];
  payload = record { code = negsuc 0; headers = []; body = [] };
  state = ResponseState.pending;
  stream = none;
}

abbrev answer : AsyncAction
answer = send (pos 200) (codes "hi") posted

pending_answer_delivered_example :
    ((user_action sample_env asked 0 answer).signals ≡ (7, 0) ∷ [])
    × ((s' : System) × (dispatch sample_env promoted
            (wakeup 0)
            (user_action sample_env asked 0 answer)
          ≡ ok (promoted, s'))
        × (s'.calls ≡ http_reply 7 (pos 200) default_line (codes "hi") ∷ [])
        × (find_at 7 0 s'.pending_responses ≡ none))
unfolding find apply_setup on_async_request new format format_loop
pending_answer_delivered_example =
    pending_answer_delivered sample_env {w = record { conns = promoted ∷ []; system = asked }} 0
      promoted 0 waiting (pos 200) (codes "hi") exact_fits asked_reached (omega arith) refl refl
      refl refl refl

abbrev gone : Connection
gone = record promoted { fn_data = FnData.null; tag = 0 }

-- The response has failed, and nothing is pending.
abbrev abandoned : System
abandoned = record asked {
  endpoint = record (asked.endpoint) { pending_responses = [] };
  responses = record waiting { state = ResponseState.failed } ∷ [];
}

gone_served : dispatch sample_env promoted close asked ≡ ok (gone, abandoned)
unfolding dispatch handle_close find erase deref_response put_response apply_setup on_async_request
    new package.mongoose_cpp.Http.AsyncResponse.mark_failed
gone_served = refl

-- The answer that comes too late.
abbrev answered_late : System
answered_late = user_action sample_env abandoned 0 answer

closed_for_good_example :
    FailedAt answered_late.responses 0
    × ((c id : ℕ) → find_at c id answered_late.pending_responses ≢ some 0)
    × ((actions : List AsyncAction)
        → (user_actions sample_env answered_late 0 actions).signals ≡ answered_late.signals)
unfolding find apply_setup on_async_request new
closed_for_good_example =
    closed_for_good sample_env {w = record { conns = promoted ∷ []; system = asked }}
      {u = record { conns = gone ∷ []; system = answered_late }} 0 promoted (gone, abandoned) 0 0
      exact_fits asked_reached refl (late refl tt) gone_served refl (next here (responds 0 answer))

-- The moment inside `stream` behind the posting of its wake-up.
abbrev halfway : AsyncResponse × List AsyncStream
halfway = stream_prepare (sample_env.header_order) waiting [] (pos 200) (codes "chunked")

early_wakeup_loses_stream_example :
    (s' : System) × (handle_wakeup 7 0
        (record asked { responses = halfway.0 ∷ []; streams = halfway.1 })
      ≡ ok s')
    × (s'.calls ≡ http_reply 7 (negsuc 0) [] [] ∷ [])
    × (find_at 7 0 s'.pending_responses ≡ none)
    × (halfway.0.stream ≡ some 0)
    × ((x : AsyncStream) × (get_elem? s'.streams 0 ≡ some x) × (x.state ≡ StreamState.start))
    × ((conn id : ℕ) → find_at conn id s'.pending_streams ≢ some (some 0))
unfolding find apply_setup on_async_request new package.mongoose_cpp.Http.AsyncResponse.new
early_wakeup_loses_stream_example =
    early_wakeup_loses_stream sample_env asked 0 waiting (pos 200) (codes "chunked")
      ((Reach-WorldInv sample_env exact_fits asked_reached).system_inv) refl refl refl refl refl
