-- ===== src/Http/AsyncStream.antt =====
-- The asynchronous stream, shared by the producer's thread and the event loop: class async_stream of
-- include/mgxx/http/async_stream.hpp and src/http/async_stream.cpp. Its manager is an answer
-- (Mongoose.Wakeup) to the calls that reach for it.
pub mod State
pub mod Laws
use mongoose_cpp.Prelude.{
  ℕ, Bool, true, false, List, [], ◌∷◌, Option, none, some, Bytes, if◌then◌else◌,
}
use mongoose_cpp.Mongoose.{Wakeup, Signal}
use State.{StreamState, is_failed}

pub record AsyncStream : Type 0 where
  pub conn : ℕ
  pub id : ℕ
  pub bytes : Bytes
  pub state : StreamState

unfoldable pub new : ℕ → ℕ → Bytes → AsyncStream
new conn id preamble = record { conn = conn; id = id; bytes = preamble; state = StreamState.start }

-- `wait` over the values that its loads of the state see, the first one first. `m_state.wait` in
-- between sleeps until the state is another; when the loop loads again, it may be any. `none`: the
-- caller still sleeps when the values end.
unfoldable pub wait : List StreamState → Option Bool
wait [] = none
wait (StreamState.empty ∷ seen) = some true
wait (StreamState.failed ∷ seen) = some false
wait (StreamState.completed ∷ seen) = some false
wait (StreamState.start ∷ seen) = wait seen
wait (StreamState.has_data ∷ seen) = wait seen
wait (StreamState.flush ∷ seen) = wait seen
wait (StreamState.close ∷ seen) = wait seen

unfoldable pub failed : AsyncStream → Bool
failed s = is_failed s.state

-- The wake-up at the end of `send` and `close`.
unfoldable pub wake : AsyncStream → Wakeup → AsyncStream × List Signal
wake s Wakeup.gone = (s, [])
wake s Wakeup.refused = (record s { state = StreamState.failed }, [])
wake s Wakeup.posted = (s, (s.conn, s.id) ∷ [])

unfoldable pub send : AsyncStream → Bytes → Wakeup → AsyncStream × List Signal
unfolding wake
send s body answer = wake (record s { bytes = body; state = StreamState.has_data }) answer

unfoldable pub close : AsyncStream → Wakeup → AsyncStream × List Signal
unfolding wake
close s answer = wake (record s { bytes = []; state = StreamState.close }) answer

-- The bytes are moved out, which leaves the string empty.
unfoldable pub get_data : AsyncStream → Bytes × AsyncStream
get_data s = (s.bytes, record s { bytes = [] })

unfoldable pub mark_flush : AsyncStream → AsyncStream
mark_flush s = record s { state = StreamState.flush }

unfoldable pub mark_empty : AsyncStream → AsyncStream
mark_empty s = record s { state = StreamState.empty }

unfoldable pub mark_completed : AsyncStream → AsyncStream
mark_completed s = record s { state = StreamState.completed }

unfoldable pub mark_failed : AsyncStream → AsyncStream
mark_failed s = record s { state = StreamState.failed }
