-- ===== src/Http/Endpoint/Wakeup/Race.antt =====
-- The answers of an asynchronous response from the user's call to the wake-up that it posts, and what
-- becomes of a stream whose wake-up is served before the call of `stream` has returned.
use mongoose_cpp.Prelude.{
  ℕ, ◌≡◌, ◌≢◌, sym, refl, ◌∙◌, ap, true, false, [], ◌∷◌, ◌++◌, none, some, Bytes, ℤ, negsuc, c_str,
  arith, length, get_elem?, set, get_elem?-lt, get_elem?-set_self, get_elem?-append_end, ==_refl,
}
use mongoose_cpp.Table.{Table, find, IsUnique}
use mongoose_cpp.Table.Keys.{nat_key}
use mongoose_cpp.Mongoose.{http_reply, ok, posted}
use mongoose_cpp.Http.Headers
use mongoose_cpp.Http.AsyncStream
use mongoose_cpp.Http.AsyncStream.{AsyncStream}
use mongoose_cpp.Http.AsyncStream.State.{StreamState}
use mongoose_cpp.Http.AsyncResponse
use mongoose_cpp.Http.AsyncResponse.{AsyncResponse, stream_prepare, stream_headers}
use mongoose_cpp.Http.AsyncResponse.State.{ResponseState, is_pending, is_streaming}
use mongoose_cpp.Http.Endpoint.State.{System, Env, send, user_action, act}
use mongoose_cpp.Http.Endpoint.Wakeup.{handle_wakeup}
use mongoose_cpp.Http.Endpoint.Wakeup.Lookup.{find_at, find_at-found}
use mongoose_cpp.Http.Safety.Inv.{Inv}
use mongoose_cpp.Http.Endpoint.Wakeup.Answers.{response_delivered}

pending-not_streaming : (st : ResponseState) → is_pending st ≡ true → is_streaming st ≡ false
pending-not_streaming st h = ground arith

user_send :
    (env : Env) (s : System) (ref : ℕ) (r : AsyncResponse) (code : ℤ) (body : Bytes)
    → get_elem? s.responses ref ≡ some r
    → is_pending r.state ≡ true
    → user_action env s ref (send code body posted) ≡ record s {
      responses = set s.responses ref (record r {
        payload = record {
          code = code;
          headers = Headers.format env.header_order r.headers false 0;
          body = body;
        };
        state = ResponseState.sending;
      });
      signals = s.signals ++ (r.conn, r.id) ∷ [];
    }
unfolding user_action act AsyncResponse.send
user_send env s ref r code body hr h = rw (hr, user_action) (rw h)

marked : (r : AsyncResponse) → (AsyncResponse.mark_completed r).state ≡ ResponseState.completed
unfolding AsyncResponse.mark_completed
marked r = refl

-- An answer that a user sends on a pending response, and whose wake-up is posted, goes out with that
-- wake-up: one reply on the response's connection with the code, the formatted headers and the body
-- of the call; the response is then completed, and not pending any more. The response is in the
-- endpoint's map under its connection and number, and no stream is pending there.
pub send_then_wakeup :
    (env : Env) (s : System) (ref : ℕ) (responses : Table ℕ ℕ) (r : AsyncResponse) (code : ℤ)
    (body : Bytes)
    → find_at r.conn r.id s.pending_streams ≡ none
    → find nat_key r.conn s.pending_responses ≡ some responses
    → IsUnique nat_key responses
    → find nat_key r.id responses ≡ some ref
    → get_elem? s.responses ref ≡ some r
    → is_pending r.state ≡ true
    → let sent = user_action env s ref (send code body posted) in
      (sent.signals ≡ s.signals ++ (r.conn, r.id) ∷ [])
      × ((s' : System) × (handle_wakeup r.conn r.id sent ≡ ok s')
          × (s'.calls
              ≡ s.calls
                ++ http_reply r.conn code
                    (c_str (Headers.format env.header_order r.headers false 0))
                    body
                  ∷ [])
          × ((r' : AsyncResponse) × (get_elem? s'.responses ref ≡ some r')
              × (r'.state ≡ ResponseState.completed))
          × (find_at r.conn r.id s'.pending_responses ≡ none))
send_then_wakeup env s ref responses r code body hs hc hu hi hr h =
    let r1 = record r {
      payload = record {
        code = code;
        headers = Headers.format env.header_order r.headers false 0;
        body = body;
      };
      state = ResponseState.sending;
    } in
    let d =
      response_delivered r.conn r.id ref responses r1
        (record s {
          responses = set s.responses ref r1;
          signals = s.signals ++ (r.conn, r.id) ∷ [];
        })
        hs hc hu hi (get_elem?-set_self s.responses ref r1 (get_elem?-lt s.responses ref hr))
        refl in
    rw (user_send env s ref r code body hr h) (
      refl,
      (
        d.0,
        d.1,
        d.2,
        (AsyncResponse.mark_completed r1, d.3, marked r1),
        d.4 r.conn r.id ∙ rw (==_refl r.conn) (rw (==_refl r.id)),
      ),
    )

-- No pending map leads to a stream that is not made yet.
new_unreached :
    (s : System) (conn id : ℕ)
    → Inv s
    → find_at conn id s.pending_streams ≢ some (some (length s.streams))
new_unreached s conn id v q =
    let (k, x, p, h, _, _) = v.streams_valid conn id (some (length s.streams)) q in
    let same : length s.streams ≡ k = cc p in omega (arith, same, get_elem?-lt s.streams k h)

-- `stream` makes the stream and posts its wake-up before it stores the state `streaming`. A wake-up
-- that is served in between finds a pending response with the payload that it was made with: it
-- replies with the code -1, no headers and no body, and drops the response; behind it the stream is
-- still in `start`, and no pending map leads to it, under any connection and number. The invariant of
-- the endpoint holds, the response is in the endpoint's map under its connection and number, and no
-- stream is pending there.
pub early_wakeup_loses_stream :
    (env : Env) (s : System) (ref : ℕ) (r : AsyncResponse) (code : ℤ) (encoding : Bytes)
    → Inv s
    → find_at r.conn r.id s.pending_streams ≡ none
    → find_at r.conn r.id s.pending_responses ≡ some ref
    → get_elem? s.responses ref ≡ some r
    → is_pending r.state ≡ true
    → r.payload ≡ (AsyncResponse.new r.conn r.id).payload
    → let prepared = stream_prepare env.header_order r s.streams code encoding in
      (s' : System) × (handle_wakeup r.conn r.id
          (record s { responses = set s.responses ref prepared.0; streams = prepared.1 })
        ≡ ok s')
      × (s'.calls ≡ s.calls ++ http_reply r.conn (negsuc 0) [] [] ∷ [])
      × (find_at r.conn r.id s'.pending_responses ≡ none)
      × (prepared.0.stream ≡ some (length s.streams))
      × ((x : AsyncStream) × (get_elem? s'.streams (length s.streams) ≡ some x)
          × (x.state ≡ StreamState.start))
      × ((conn id : ℕ) → find_at conn id s'.pending_streams ≢ some (some (length s.streams)))
unfolding stream_prepare AsyncResponse.new AsyncStream.new
early_wakeup_loses_stream env s ref r code encoding v hs e hr h hp =
    let r1 = (stream_prepare env.header_order r s.streams code encoding).0 in
    let grown = (stream_prepare env.header_order r s.streams code encoding).1 in
    let (responses, hc, hi) = find_at-found r.conn r.id s.pending_responses e in
    let d =
      response_delivered r.conn r.id ref responses r1
        (record s { responses = set s.responses ref r1; streams = grown }) hs hc
        (v.responses_unique r.conn responses hc) hi
        (get_elem?-set_self s.responses ref r1 (get_elem?-lt s.responses ref hr))
        (pending-not_streaming r.state h) in
    (
      d.0,
      d.1,
      d.2 ∙ ap (λ p. s.calls ++ http_reply r.conn p.code (c_str p.headers) p.body ∷ []) hp,
      d.4 r.conn r.id ∙ rw (==_refl r.conn) (rw (==_refl r.id)),
      refl,
      (_, ap (λ xs. get_elem? xs (length s.streams)) d.6 ∙ get_elem?-append_end s.streams _, refl),
      λ conn id q. new_unreached s conn id v (sym (ap (find_at conn id) d.5) ∙ q),
    )
