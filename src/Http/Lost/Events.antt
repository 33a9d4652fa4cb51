-- ===== src/Http/Lost/Events.antt =====
-- The loops of write and close events.
use mongoose_cpp.Prelude.{ℕ, [], ◌∷◌, ◌++◌, Option-cases, inl, inr}
use mongoose_cpp.Table.{Table, find}
use mongoose_cpp.Table.Keys.{nat_key}
use mongoose_cpp.Table.Values.{find-AllValues, erase-AllValues}
use mongoose_cpp.Mongoose.{ok}
use mongoose_cpp.Http.AsyncResponse
use mongoose_cpp.Http.AsyncStream
use mongoose_cpp.Http.Connection.{Connection, FnData, pump_stream, pump_async_stream}
use mongoose_cpp.Http.Endpoint.State.{
  System, Env, Responses, Streams, deref_response, deref_stream, put_response, put_stream,
}
use mongoose_cpp.Http.Endpoint.Message.{context_of}
use mongoose_cpp.Http.Endpoint.Events.{
  handle_close, handle_write, pump_streams, pump_all, fail_responses, fail_streams, close_responses,
  close_streams, release_context,
}
use mongoose_cpp.Http.Isolation.{Leaves, Leaves-bind, Leaves-any}
use mongoose_cpp.Http.Lost.{IsAbsentIn, IsLost, put_response-IsLost, put_stream-IsLost}

abbrev pub StillLost : ℕ → Connection × System → Type 0
StillLost ref r = IsLost ref r.1

module _ (ref : ℕ) where
  pump_streams-IsLost :
      (io_size send_len : ℕ) (t : Streams) (s : System)
      → IsLost ref s
      → Leaves (IsLost ref) (pump_streams io_size send_len t s)
  unfolding pump_streams
  pump_streams-IsLost io_size send_len [] s h = h
  pump_streams-IsLost io_size send_len ((id, p) ∷ t) s h =
      Leaves-bind (λ _. Unit) (IsLost ref) (deref_stream s p) _ (Leaves-any (deref_stream s p))
        (λ x _.
          let s1 = put_stream s p (pump_async_stream io_size send_len x) in
          pump_streams-IsLost io_size send_len t s1 (put_stream-IsLost s p ref _ h))

  pump_all-IsLost :
      (io_size send_len : ℕ) (m : Table ℕ Streams) (s : System)
      → IsLost ref s
      → Leaves (IsLost ref) (pump_all io_size send_len m s)
  unfolding pump_all
  pump_all-IsLost io_size send_len [] s h = h
  pump_all-IsLost io_size send_len ((conn, t) ∷ m) s h =
      Leaves-bind (IsLost ref) (IsLost ref) (pump_streams io_size send_len t s)
        (pump_all io_size send_len m) (pump_streams-IsLost io_size send_len t s h)
        (pump_all-IsLost io_size send_len m)

  fail_responses-IsLost :
      (t : Responses) (s : System)
      → IsAbsentIn ref t
      → IsLost ref s
      → Leaves (IsLost ref) (fail_responses t s)
  unfolding fail_responses
  fail_responses-IsLost [] s a h = h
  fail_responses-IsLost ((id, k) ∷ t) s a h =
      Leaves-bind (λ _. Unit) (IsLost ref) (deref_response s k) _ (Leaves-any (deref_response s k))
        (λ r _.
          let s1 = put_response s k (AsyncResponse.mark_failed r) in
          fail_responses-IsLost t s1 a.1 (put_response-IsLost s k ref _ a.0 h))

  fail_streams-IsLost :
      (t : Streams) (s : System) → IsLost ref s → Leaves (IsLost ref) (fail_streams t s)
  unfolding fail_streams
  fail_streams-IsLost [] s h = h
  fail_streams-IsLost ((id, p) ∷ t) s h =
      Leaves-bind (λ _. Unit) (IsLost ref) (deref_stream s p) _ (Leaves-any (deref_stream s p))
        (λ x _.
          let s1 = put_stream s p (AsyncStream.mark_failed x) in
          fail_streams-IsLost t s1 (put_stream-IsLost s p ref _ h))

  close_responses-IsLost :
      (conn : ℕ) (s : System) → IsLost ref s → Leaves (IsLost ref) (close_responses conn s)
  unfolding close_responses
  close_responses-IsLost conn s h = elim (Option-cases (find nat_key conn s.pending_responses)) [
    | inl e ↦ rw (e, close_responses) h
    | inr (t, e) ↦
        rw (e, close_responses)
          (Leaves-bind (IsLost ref) (IsLost ref) (fail_responses t s) _
            (fail_responses-IsLost t s
              (find-AllValues nat_key (IsAbsentIn ref) conn s.pending_responses h.1 e) h)
            (λ u k. (k.0, erase-AllValues nat_key (IsAbsentIn ref) conn u.pending_responses k.1)))
  ]

  close_streams-IsLost :
      (conn : ℕ) (s : System) → IsLost ref s → Leaves (IsLost ref) (close_streams conn s)
  unfolding close_streams
  close_streams-IsLost conn s h = elim (Option-cases (find nat_key conn s.pending_streams)) [
    | inl e ↦ rw (e, close_streams) h
    | inr (t, e) ↦
        rw (e, close_streams)
          (Leaves-bind (IsLost ref) (IsLost ref) (fail_streams t s) _ (fail_streams-IsLost t s h)
            (λ u k. k))
  ]

  pub handle_close-IsLost :
      (conn : Connection) (s : System) → IsLost ref s → Leaves (StillLost ref) (handle_close conn s)
  unfolding handle_close
  handle_close-IsLost conn s h =
      Leaves-bind (IsLost ref) (StillLost ref) (close_responses conn.id s) _
        (close_responses-IsLost conn.id s h)
        (λ t k.
          Leaves-bind (IsLost ref) (StillLost ref) (close_streams conn.id t) _
            (close_streams-IsLost conn.id t k)
            (λ u l.
              Leaves-bind (λ _. Unit) (StillLost ref) (release_context conn) (λ c. ok (c, u))
                (Leaves-any (release_context conn)) (λ c _. l)))

  pub handle_write-IsLost :
      (env : Env) (conn : Connection) (s : System)
      → IsLost ref s
      → Leaves (StillLost ref) (handle_write env conn s)
  unfolding handle_write
  handle_write-IsLost env conn s h =
      Leaves-bind (λ _. Unit) (StillLost ref) (context_of conn) _ (Leaves-any (context_of conn))
        (λ c _.
          let pumped = pump_stream env.io_size conn.id conn.send_len c in
          let grown = env.send_len_after conn.send_len pumped.0 in
          let s1 : System = record s { calls = s.calls ++ pumped.0 } in
          Leaves-bind (IsLost ref) (StillLost ref) (pump_all env.io_size grown s.pending_streams s1)
            (λ t. ok (record conn { fn_data = FnData.context pumped.1 }, t))
            (pump_all-IsLost env.io_size grown s.pending_streams s1 h) (λ t k. k))
