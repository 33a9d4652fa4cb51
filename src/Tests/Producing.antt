-- ===== src/Tests/Producing.antt =====
-- A thread that produces one chunk of a stream, beside the event loop.
use mongoose_cpp.Prelude.{
  pos, none, ◌≡◌, refl, [], ◌∷◌, ◌++◌, some, codes, arith, true, false, get_elem?,
}
use mongoose_cpp.Table.{find}
use mongoose_cpp.Mongoose.{ok, posted, send_bytes}
use mongoose_cpp.Http.AsyncStream.{AsyncStream}
use mongoose_cpp.Http.AsyncStream.State.{StreamState}
use mongoose_cpp.Http.Connection.{pump_stream, pump_async_stream}
use mongoose_cpp.Http.Endpoint.State.{System, stream, user_action, deref_stream, put_stream, new}
use mongoose_cpp.Http.Endpoint.Events.{handle_write}
use mongoose_cpp.Http.Endpoint.Register.{on_async_request}
use mongoose_cpp.Http.Safety.Message.{IsPromoted}
use mongoose_cpp.Http.Safety.Reach.{Reach-WorldInv}
use mongoose_cpp.Http.Safety.Setups.{apply_setup}
use mongoose_cpp.Http.Producer.{Run, Steps, here, next, produces, writes, produce}
use mongoose_cpp.Http.Producer.Phases.{whole}
use mongoose_cpp.Http.Producer.Chunks.{Starts, Written, chunks_in_order}
use mongoose_cpp.Http.Producer.Finish.{producer_finishes}
use mongoose_cpp.Tests.Samples.{sample_env, sample_context, promoted}
use mongoose_cpp.Tests.Running.{exact_fits}
use mongoose_cpp.Http.Producer.World.{pending_stream_delivered}
use mongoose_cpp.Http.AsyncResponse.{stream_headers}
use mongoose_cpp.Http.Headers.{format}
use mongoose_cpp.Http.Status.{preamble}
use mongoose_cpp.Http.Endpoint.Wakeup.{handle_wakeup}
use mongoose_cpp.Http.Endpoint.Wakeup.Lookup.{find_at}
use mongoose_cpp.Tests.Pending.{asked, asked_reached, head, flushing, flushing_reached}

abbrev producing : Run
producing = record {
  system = flushing;
  todo = codes "some text" ∷ codes "more" ∷ [];
  is_done = false;
  inbox = 0;
}

producing-Starts : Starts 7 0 0 producing
unfolding find
producing-Starts = (
  (Reach-WorldInv sample_env exact_fits flushing_reached).system_inv,
  refl,
  (_, refl, tt),
  refl,
  refl,
)

abbrev with_context : IsPromoted promoted
with_context = record { remote = sample_context; held = refl; handler = refl; marked = refl }

abbrev emptied : System
emptied = record flushing {
  streams = record { conn = 7; id = 0; bytes = []; state = StreamState.empty } ∷ [];
}

write_served : handle_write sample_env promoted flushing ≡ ok (promoted, emptied)
unfolding handle_write deref_stream put_stream pump_stream apply_setup on_async_request new
    package.mongoose_cpp.Http.AsyncStream.mark_empty pump_async_stream
write_served = refl

-- A write event that empties the stream, and the thread's turn.
sent : Steps sample_env 7 0 0 producing (produce 0 (record producing { system = emptied }))
sent =
    next (next here (writes promoted with_context (promoted, emptied) refl write_served)) produces

chunks_in_order_example :
    Written 7 flushing.calls
      (codes "some text" ∷ codes "more" ∷ [])
      (produce 0 (record producing { system = emptied }))
chunks_in_order_example =
    chunks_in_order sample_env 7 0 0 producing (produce 0 (record producing { system = emptied }))
      producing-Starts sent

producer_finishes_example :
    (u : Run) × Steps sample_env 7 0 0 (produce 0 (record producing { system = emptied })) u
    × (u.system.calls ≡ flushing.calls ++ whole 7 (codes "some text" ∷ codes "more" ∷ []))
    × (u.is_done ≡ true)
    × ((x : AsyncStream) × (get_elem? u.system.streams 0 ≡ some x)
        × (x.state ≡ StreamState.completed))
producer_finishes_example =
    producer_finishes sample_env 7 0 0 promoted producing
      (produce 0 (record producing { system = emptied })) (with_context, refl, omega arith)
      producing-Starts sent

pending_stream_delivered_example :
    (s1 : System) × (u : Run) × (handle_wakeup 7 0
        (user_action sample_env asked 0 (stream (pos 200) (codes "chunked") posted))
      ≡ ok s1)
    × (find_at 7 0 s1.pending_responses ≡ none)
    × Steps sample_env 7 0 0 (record producing { system = s1; todo = codes "a" ∷ [] }) u
    × (u.system.calls ≡ [] ++ (send_bytes 7 head ∷ whole 7 (codes "a" ∷ [])))
    × ((x : AsyncStream) × (get_elem? u.system.streams 0 ≡ some x)
        × (x.state ≡ StreamState.completed))
unfolding find apply_setup on_async_request new format package.mongoose_cpp.Http.Headers.set
    package.mongoose_cpp.Http.Headers.remove stream_headers preamble
pending_stream_delivered_example =
    pending_stream_delivered sample_env {w = record { conns = promoted ∷ []; system = asked }} 0 _
      (pos 200) (codes "chunked") (codes "a" ∷ []) promoted exact_fits asked_reached (omega arith)
      (with_context, refl, omega arith) refl refl refl
