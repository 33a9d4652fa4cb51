-- ===== src/Tests/Wakeups.antt =====
-- Wake-ups: of responses that were answered, of those that stream, and of streams.
use mongoose_cpp.Prelude.{◌≡◌, ◌≤◌, length, refl, [], ◌∷◌, some, codes, pos, get_elem?}
use mongoose_cpp.Mongoose.{http_write_chunk, ok, posted}
use mongoose_cpp.Http.AsyncStream.State.{StreamState}
use mongoose_cpp.Http.AsyncResponse.State.{ResponseState}
use mongoose_cpp.Table.{find}
use mongoose_cpp.Http.Endpoint.State.{System, user_action, user_actions, send}
use mongoose_cpp.Http.Endpoint.Once.{one_wakeup}
use mongoose_cpp.Http.Endpoint.Wakeup.{handle_wakeup, internal_server_error}
use mongoose_cpp.Http.Endpoint.Wakeup.Answers.{unknown_answered_twice}
use mongoose_cpp.Http.Endpoint.Wakeup.Streaming.{stream_wakeup}
use mongoose_cpp.Tests.Samples.{sample_env, sample_stream, one_response, one_stream}

abbrev waiting : System
waiting = one_response ResponseState.pending

abbrev answered : System
answered = user_action sample_env waiting 0 (send (pos 200) (codes "hi") posted)

unknown_answered_twice_example :
    handle_wakeup 7 5 waiting
    ≡ ok (record waiting { calls = internal_server_error 7 ∷ internal_server_error 7 ∷ [] })
unfolding find
unknown_answered_twice_example = unknown_answered_twice 7 5 waiting refl refl

stream_wakeup_example :
    (s' : System) × (handle_wakeup 7 0 (one_stream StreamState.has_data) ≡ ok s')
    × (s'.calls ≡ http_write_chunk 7 (codes "some bytes") ∷ [])
    × (get_elem? s'.streams 0
        ≡ some (record (sample_stream StreamState.start) { bytes = []; state = StreamState.flush }))
    × (s'.responses ≡ [])
    × (s'.pending_responses ≡ [])
unfolding find
stream_wakeup_example =
    stream_wakeup 7 0 0 (sample_stream StreamState.has_data) (one_stream StreamState.has_data) refl
      refl

one_wakeup_example :
    length
      (user_actions sample_env waiting 0
        (send (pos 200) (codes "hi") posted ∷ send (pos 404) [] posted ∷ [])).signals
    ≤ 1
one_wakeup_example =
    one_wakeup sample_env waiting 0
      (send (pos 200) (codes "hi") posted ∷ send (pos 404) [] posted ∷ [])
