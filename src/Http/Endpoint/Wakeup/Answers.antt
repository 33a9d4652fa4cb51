-- ===== src/Http/Endpoint/Wakeup/Answers.antt =====
-- What one wake-up does for a response: the answer goes out once, and a wake-up that finds nothing is
-- answered twice.
use mongoose_cpp.Prelude.{
  ℕ, ◌==◌, ◌&&◌, if◌then◌else◌, ◌≡◌, refl, ◌∙◌, ap, true, false, [], ◌∷◌, ◌++◌, none, some, c_str,
  arith, get_elem?, append_assoc, get_elem?-lt, get_elem?-set_self,
}
use mongoose_cpp.Table.{Table, find, IsUnique}
use mongoose_cpp.Table.Keys.{nat_key}
use mongoose_cpp.Mongoose.{http_reply, ok, ◌>>=◌}
use mongoose_cpp.Http.AsyncResponse
use mongoose_cpp.Http.AsyncResponse.{AsyncResponse}
use mongoose_cpp.Http.AsyncResponse.State.{is_streaming}
use mongoose_cpp.Http.Endpoint.State.{System, emit, deref_response, put_response}
use mongoose_cpp.Http.Endpoint.Wakeup.{
  handle_stream, handle_response, handle_wakeup, handle_found_response, after_stream,
  after_response, internal_server_error, deliver_response,
}
use mongoose_cpp.Http.Endpoint.Wakeup.Lookup.{find_at, find_at-erase_at}

pub handle_stream_absent :
    (conn id : ℕ) (s : System)
    → find_at conn id s.pending_streams ≡ none
    → handle_stream conn id s ≡ ok (false, s)
unfolding handle_stream
handle_stream_absent conn id s h = ground arith

pub handle_response_absent :
    (conn id : ℕ) (s : System)
    → find_at conn id s.pending_responses ≡ none
    → handle_response conn id s ≡ ok (false, emit s (internal_server_error conn))
unfolding handle_response
handle_response_absent conn id s h = ground arith

-- A wake-up whose number is pending neither as a stream nor as a response, as that of an answer that
-- was delivered before, makes two error replies on the connection, and changes nothing else.
pub unknown_answered_twice :
    (conn id : ℕ) (s : System)
    → find_at conn id s.pending_streams ≡ none
    → find_at conn id s.pending_responses ≡ none
    → handle_wakeup conn id s
      ≡ ok (record s {
        calls = s.calls ++ internal_server_error conn ∷ internal_server_error conn ∷ [];
      })
unfolding handle_wakeup emit
unknown_answered_twice conn id s hs hr =
    ap (λ m. m >>= after_stream conn id) (handle_stream_absent conn id s hs)
    ∙ ap (λ m. m >>= λ a. ok (after_response conn a)) (handle_response_absent conn id s hr)
    ∙ ap (λ c. ok (record s { calls = c })) (append_assoc s.calls _ _)

pub handle_response_found :
    (conn id ref : ℕ) (responses : Table ℕ ℕ) (r : AsyncResponse) (s : System)
    → find nat_key conn s.pending_responses ≡ some responses
    → find nat_key id responses ≡ some ref
    → get_elem? s.responses ref ≡ some r
    → is_streaming r.state ≡ false
    → handle_response conn id s ≡ ok (true, deliver_response conn id ref responses r s)
unfolding handle_response deref_response
handle_response_found conn id ref responses r s hc hi hr h =
    rw (hc, handle_response) (rw (hi, handle_found_response) (rw (hr, deref_response) (rw h)))

-- A wake-up for a pending response that does not stream makes exactly one reply, with the code, the
-- headers and the body of the response; the response is completed and no longer pending, and every
-- other pending entry stays as it is.
pub response_delivered :
    (conn id ref : ℕ) (responses : Table ℕ ℕ) (r : AsyncResponse) (s : System)
    → find_at conn id s.pending_streams ≡ none
    → find nat_key conn s.pending_responses ≡ some responses
    → IsUnique nat_key responses
    → find nat_key id responses ≡ some ref
    → get_elem? s.responses ref ≡ some r
    → is_streaming r.state ≡ false
    → (s' : System) × (handle_wakeup conn id s ≡ ok s')
      × (s'.calls
          ≡ s.calls ++ http_reply conn r.payload.code (c_str r.payload.headers) r.payload.body ∷ [])
      × (get_elem? s'.responses ref ≡ some (AsyncResponse.mark_completed r))
      × ((conn' id' : ℕ)
          → find_at conn' id' s'.pending_responses
            ≡ (if conn == conn' && id == id' then none else find_at conn' id' s.pending_responses))
      × (s'.pending_streams ≡ s.pending_streams)
      × (s'.streams ≡ s.streams)
unfolding handle_wakeup deliver_response emit put_response
response_delivered conn id ref responses r s hs hc hu hi hr h = (
  deliver_response conn id ref responses r s,
  ap (λ m. m >>= after_stream conn id) (handle_stream_absent conn id s hs)
      ∙ ap (λ m. m >>= λ a. ok (after_response conn a))
          (handle_response_found conn id ref responses r s hc hi hr h),
  refl,
  get_elem?-set_self s.responses ref _ (get_elem?-lt s.responses ref hr),
  λ conn' id'. find_at-erase_at conn id conn' id' responses s.pending_responses hc hu,
  refl,
  refl,
)
