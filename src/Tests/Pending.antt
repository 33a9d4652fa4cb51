-- ===== src/Tests/Pending.antt =====
-- The endpoint with something pending: a request that waits for its answer, and a stream that is
-- flushed; their delivery, their failure, and what a write event does to them.
use mongoose_cpp.Prelude.{
  ◌≡◌, refl, Bytes, List, [], ◌∷◌, some, none, Option, codes, pos, negsuc, arith, ℕ, ◌==◌,
  if◌then◌else◌,
}
use mongoose_cpp.Table.{find, assign, erase}
use mongoose_cpp.Table.Order.{insertion_order}
use mongoose_cpp.Mongoose.{ok, posted, http_reply, send_bytes}
use mongoose_cpp.Http.AsyncStream.{AsyncStream}
use mongoose_cpp.Http.AsyncStream.State.{StreamState}
use mongoose_cpp.Http.AsyncResponse.{AsyncResponse}
use mongoose_cpp.Http.AsyncResponse.State.{ResponseState}
use mongoose_cpp.Http.Connection.{Connection, format_ip}
use mongoose_cpp.Http.Headers.{default_line, format, format_loop}
use mongoose_cpp.Http.Request.{Request}
use mongoose_cpp.Http.Status.{preamble}
use mongoose_cpp.Http.Delivery.{async_answer_delivered}
use mongoose_cpp.Http.Endpoint.State.{
  System, AsyncAction, async, send, stream, boot, new, user_action, user_actions, deref_response,
  put_response, deref_stream, put_stream, emit,
}
use mongoose_cpp.Http.Endpoint.Events.{
  dispatch, accept, wakeup, http_msg, handle_close, handle_write,
}
use mongoose_cpp.Http.Endpoint.Message.{handle_http_message, match_listener}
use mongoose_cpp.Http.Endpoint.Register.{count_groups, on_async_request}
use mongoose_cpp.Http.Endpoint.Wakeup.{handle_wakeup, handle_stream, handle_response}
use mongoose_cpp.Http.Endpoint.Wakeup.Lookup.{find_at}
use mongoose_cpp.Http.Safety.Close.{FailedAt}
use mongoose_cpp.Http.Safety.Failures.{close_fails_pending}
use mongoose_cpp.Http.Safety.Backpressure.{StreamAt, IsEmpty, write_empties_all}
use mongoose_cpp.Http.Safety.Events.{early, late}
use mongoose_cpp.Http.Safety.Reach.{
  Reach, here, next, opens, sets_up, serves, start, Reach-WorldInv,
}
use mongoose_cpp.Http.Safety.Setups.{async_requests, apply_setup}
use mongoose_cpp.Tests.Samples.{sample_env, sample_context, accepted, promoted, system_with}
use mongoose_cpp.Tests.Running.{exact_fits, who}

abbrev silent : Request → List AsyncAction
silent request = []

abbrev pub streaming : Request → List AsyncAction
streaming request = stream (pos 200) (codes "chunked") posted ∷ []

-- An endpoint with one listener, which a connection was accepted for.
abbrev listening : (Request → List AsyncAction) → System
listening callback = record (system_with [] [] [] []) {
  endpoint = apply_setup insertion_order new (async_requests (codes "/who") callback);
}

accept_served :
    (callback : Request → List AsyncAction)
    → dispatch sample_env accepted accept (listening callback) ≡ ok (promoted, listening callback)
unfolding dispatch apply_setup on_async_request new format_ip
accept_served callback = refl

listening_reached :
    (callback : Request → List AsyncAction)
    → Reach sample_env start (record { conns = promoted ∷ []; system = listening callback })
unfolding boot new start
listening_reached callback =
    next
      (next (next here (sets_up (async_requests (codes "/who") callback)))
        (opens accepted (record { held = refl; handler = refl; unmarked = refl })))
      (serves 0 accepted accept (promoted, listening callback) refl
        (early refl (record { held = refl; handler = refl; unmarked = refl }) tt)
        (accept_served callback))

async_answer_delivered_example :
    (t : System) × (handle_http_message sample_env promoted who (listening silent)
      ≡ ok (promoted, t))
    × (t.calls ≡ [])
    × ((s' : System) × (handle_wakeup 7 0
            (user_action sample_env t 0 (send (pos 200) (codes "hi") posted))
          ≡ ok s')
        × (s'.calls ≡ http_reply 7 (pos 200) default_line (codes "hi") ∷ [])
        × (find_at 7 0 s'.pending_responses ≡ none))
unfolding find assign match_listener apply_setup on_async_request new format format_loop
    count_groups
async_answer_delivered_example =
    async_answer_delivered sample_env promoted who (record { groups = 0; callback = async silent })
      [] silent sample_context (listening silent) (pos 200) (codes "hi") refl refl (omega arith)
      refl refl ((Reach-WorldInv sample_env exact_fits (listening_reached silent)).system_inv) refl

-- After the request: its response is pending.
abbrev pub asked : System
asked = record (listening silent) {
  endpoint = record ((listening silent).endpoint) {
    request_counter = 1;
    pending_responses = (7, (0, 0) ∷ []) ∷ [];
  };
  responses =
      record {
        conn = 7;
        id = 0;
        headers = [];
        payload = record { code = negsuc 0; headers = []; body = [] };
        state = ResponseState.pending;
        stream = none;
      }
      ∷ [];
}

asked_served : dispatch sample_env promoted (http_msg who) (listening silent) ≡ ok (promoted, asked)
unfolding dispatch handle_http_message match_listener apply_setup on_async_request assign new
    count_groups user_actions find package.mongoose_cpp.Http.AsyncResponse.new
asked_served = refl

pub asked_reached : Reach sample_env start (record { conns = promoted ∷ []; system = asked })
asked_reached =
    next (listening_reached silent)
      (serves 0 promoted (http_msg who) (promoted, asked) refl (late refl tt) asked_served)

close_fails_pending_example :
    (r : Connection × System) × (handle_close promoted asked ≡ ok r)
    × (FailedAt r.1.responses 0 × Unit {0})
    × Unit {0}
    × ((c id : ℕ)
        → (find_at c id r.1.pending_responses
            ≡ (if 7 == c then none else find_at c id asked.pending_responses))
          × (find_at c id r.1.pending_streams
              ≡ (if 7 == c then none else find_at c id asked.pending_streams)))
unfolding find apply_setup on_async_request new
close_fails_pending_example =
    close_fails_pending promoted asked (λ e. (sample_context, refl))
      ((Reach-WorldInv sample_env exact_fits asked_reached).system_inv)

-- After a request whose handler streams, and after the wake-up that it posted.
abbrev pub head : Bytes
head = preamble (pos 200) (codes "Transfer-Encoding: chunked\r\n")

abbrev streaming_response : Option ℕ → AsyncResponse
streaming_response held = record {
  conn = 7;
  id = 0;
  headers = (codes "Transfer-Encoding", codes "chunked") ∷ [];
  payload = record { code = negsuc 0; headers = []; body = [] };
  state = ResponseState.streaming;
  stream = held;
}

abbrev streamed : System
streamed = record (listening streaming) {
  endpoint = record ((listening streaming).endpoint) {
    request_counter = 1;
    pending_responses = (7, (0, 0) ∷ []) ∷ [];
  };
  responses = streaming_response (some 0) ∷ [];
  streams = record { conn = 7; id = 0; bytes = head; state = StreamState.start } ∷ [];
  signals = (7, 0) ∷ [];
}

abbrev pub flushing : System
flushing = record streamed {
  endpoint = record (streamed.endpoint) {
    pending_responses = (7, []) ∷ [];
    pending_streams = (7, (0, some 0) ∷ []) ∷ [];
  };
  responses = streaming_response none ∷ [];
  streams = record { conn = 7; id = 0; bytes = []; state = StreamState.flush } ∷ [];
  calls = send_bytes 7 head ∷ [];
}

streamed_served :
    dispatch sample_env promoted (http_msg who) (listening streaming) ≡ ok (promoted, streamed)
unfolding dispatch handle_http_message match_listener apply_setup on_async_request assign new
    count_groups user_actions find package.mongoose_cpp.Http.AsyncResponse.new
    package.mongoose_cpp.Http.AsyncResponse.stream package.mongoose_cpp.Http.Headers.set
    package.mongoose_cpp.Http.AsyncStream.new package.mongoose_cpp.Http.Headers.remove format
streamed_served = refl

flushing_served : dispatch sample_env promoted (wakeup 0) streamed ≡ ok (promoted, flushing)
unfolding dispatch apply_setup on_async_request assign new find erase handle_wakeup handle_stream
    handle_response deref_response put_response deref_stream put_stream emit
    package.mongoose_cpp.Http.AsyncResponse.get_stream
    package.mongoose_cpp.Http.AsyncStream.mark_flush package.mongoose_cpp.Http.AsyncStream.get_data
    preamble
flushing_served = refl

pub flushing_reached : Reach sample_env start (record { conns = promoted ∷ []; system = flushing })
flushing_reached =
    next
      (next (listening_reached streaming)
        (serves 0 promoted (http_msg who) (promoted, streamed) refl (late refl tt) streamed_served))
      (serves 0 promoted (wakeup 0) (promoted, flushing) refl (late refl tt) flushing_served)

write_empties_all_example :
    (r : Connection × System) × (handle_write sample_env (record promoted { id = 8 }) flushing
      ≡ ok r)
    × StreamAt IsEmpty r.1.streams (some 0)
unfolding find
write_empties_all_example =
    write_empties_all sample_env (record promoted { id = 8 }) sample_context flushing 7 0 (some 0)
      refl ((Reach-WorldInv sample_env exact_fits flushing_reached).system_inv) (omega arith) refl
      (0, _, refl, refl, tt)
