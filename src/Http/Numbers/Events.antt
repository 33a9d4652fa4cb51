-- ===== src/Http/Numbers/Events.antt =====
-- The loops of write and close events make no response and no stream, and count nothing.
use mongoose_cpp.Prelude.{ℕ, ◌≡◌, refl, [], ◌∷◌, some, get_elem?, ◌++◌, inl, inr, Option-cases}
use mongoose_cpp.Table.{Table, find}
use mongoose_cpp.Table.Keys.{nat_key}
use mongoose_cpp.Mongoose.{ok}
use mongoose_cpp.Http.AsyncResponse
use mongoose_cpp.Http.AsyncStream
use mongoose_cpp.Http.AsyncStream.{AsyncStream}
use mongoose_cpp.Http.Connection.{Connection, FnData, pump_stream, pump_async_stream}
use mongoose_cpp.Http.Endpoint.State.{
  System, Env, Responses, Streams, deref_response, deref_stream, put_response, put_stream,
}
use mongoose_cpp.Http.Endpoint.Message.{context_of}
use mongoose_cpp.Http.Endpoint.Events.{
  handle_close, handle_write, pump_streams, pump_all, fail_responses, fail_streams, close_responses,
  close_streams, release_context,
}
use mongoose_cpp.Http.Safety.Loops.{pump_place}
use mongoose_cpp.Http.Isolation.{Leaves, Leaves-bind, Leaves-weaken, Leaves-any, Leaves-of}
use mongoose_cpp.Http.Numbers.{Settles-refl, stream_tag, Unnumbered, Unnumbered-trans}
use mongoose_cpp.Http.Numbers.Shared.{
  StreamAt, deref_response-Leaves, deref_stream-Leaves, put_response-Unnumbered,
  put_stream-Unnumbered,
}

pump-stream_tag :
    (io_size send_len : ℕ) (x : AsyncStream)
    → stream_tag (pump_async_stream io_size send_len x) ≡ stream_tag x
pump-stream_tag io_size send_len x = let (c, i) = pump_place io_size send_len x in cc (c, i)

pump_streams-Unnumbered :
    (io_size send_len : ℕ) (t : Streams) (s : System)
    → Leaves (Unnumbered s) (pump_streams io_size send_len t s)
unfolding pump_streams
pump_streams-Unnumbered io_size send_len [] s = (refl, refl, refl, Settles-refl s.responses)
pump_streams-Unnumbered io_size send_len ((id, ref) ∷ t) s =
    Leaves-bind (StreamAt s ref) (Unnumbered s) (deref_stream s ref) _ (deref_stream-Leaves s ref)
      (λ x h.
        let s1 = put_stream s ref (pump_async_stream io_size send_len x) in
        Leaves-weaken (Unnumbered s1) (Unnumbered s) (pump_streams io_size send_len t s1)
          (λ u.
            Unnumbered-trans s s1 u
              (put_stream-Unnumbered s ref x _ h (pump-stream_tag io_size send_len x)))
          (pump_streams-Unnumbered io_size send_len t s1))

pump_all-Unnumbered :
    (io_size send_len : ℕ) (m : Table ℕ Streams) (s : System)
    → Leaves (Unnumbered s) (pump_all io_size send_len m s)
unfolding pump_all
pump_all-Unnumbered io_size send_len [] s = (refl, refl, refl, Settles-refl s.responses)
pump_all-Unnumbered io_size send_len ((conn, t) ∷ m) s =
    Leaves-bind (Unnumbered s) (Unnumbered s) (pump_streams io_size send_len t s)
      (pump_all io_size send_len m) (pump_streams-Unnumbered io_size send_len t s)
      (λ u h.
        Leaves-weaken (Unnumbered u) (Unnumbered s) (pump_all io_size send_len m u)
          (λ z. Unnumbered-trans s u z h) (pump_all-Unnumbered io_size send_len m u))

fail_responses-Unnumbered :
    (t : Responses) (s : System) → Leaves (Unnumbered s) (fail_responses t s)
unfolding fail_responses AsyncResponse.mark_failed
fail_responses-Unnumbered [] s = (refl, refl, refl, Settles-refl s.responses)
fail_responses-Unnumbered ((id, ref) ∷ t) s =
    Leaves-bind (λ r. get_elem? s.responses ref ≡ some r) (Unnumbered s) (deref_response s ref) _
      (deref_response-Leaves s ref)
      (λ r h.
        let s1 = put_response s ref (AsyncResponse.mark_failed r) in
        Leaves-weaken (Unnumbered s1) (Unnumbered s) (fail_responses t s1)
          (λ u. Unnumbered-trans s s1 u (put_response-Unnumbered s ref r _ h refl (λ p. refl)))
          (fail_responses-Unnumbered t s1))

fail_streams-Unnumbered : (t : Streams) (s : System) → Leaves (Unnumbered s) (fail_streams t s)
unfolding fail_streams AsyncStream.mark_failed
fail_streams-Unnumbered [] s = (refl, refl, refl, Settles-refl s.responses)
fail_streams-Unnumbered ((id, ref) ∷ t) s =
    Leaves-bind (StreamAt s ref) (Unnumbered s) (deref_stream s ref) _ (deref_stream-Leaves s ref)
      (λ x h.
        let s1 = put_stream s ref (AsyncStream.mark_failed x) in
        Leaves-weaken (Unnumbered s1) (Unnumbered s) (fail_streams t s1)
          (λ u. Unnumbered-trans s s1 u (put_stream-Unnumbered s ref x _ h refl))
          (fail_streams-Unnumbered t s1))

close_responses-Unnumbered :
    (conn : ℕ) (s : System) → Leaves (Unnumbered s) (close_responses conn s)
unfolding close_responses
close_responses-Unnumbered conn s = elim (Option-cases (find nat_key conn s.pending_responses)) [
  | inl e ↦
      Leaves-of (Unnumbered s) _ (ok s) (rw (e, close_responses))
        (refl, refl, refl, Settles-refl s.responses)
  | inr (t, e) ↦
      rw (e, close_responses)
        (Leaves-bind (Unnumbered s) (Unnumbered s) (fail_responses t s) _
          (fail_responses-Unnumbered t s) (λ u h. h))
]

close_streams-Unnumbered : (conn : ℕ) (s : System) → Leaves (Unnumbered s) (close_streams conn s)
unfolding close_streams
close_streams-Unnumbered conn s = elim (Option-cases (find nat_key conn s.pending_streams)) [
  | inl e ↦
      Leaves-of (Unnumbered s) _ (ok s) (rw (e, close_streams))
        (refl, refl, refl, Settles-refl s.responses)
  | inr (t, e) ↦
      rw (e, close_streams)
        (Leaves-bind (Unnumbered s) (Unnumbered s) (fail_streams t s) _
          (fail_streams-Unnumbered t s) (λ u h. h))
]

-- The step of a connection.
abbrev pub Counts : System → Connection × System → Type 0
Counts s r = Unnumbered s r.1

pub handle_close-Counts : (conn : Connection) (s : System) → Leaves (Counts s) (handle_close conn s)
unfolding handle_close
handle_close-Counts conn s =
    Leaves-bind (Unnumbered s) (Counts s) (close_responses conn.id s) _
      (close_responses-Unnumbered conn.id s)
      (λ t h.
        Leaves-bind (Unnumbered t) (Counts s) (close_streams conn.id t) _
          (close_streams-Unnumbered conn.id t)
          (λ u k.
            Leaves-bind (λ _. Unit) (Counts s) (release_context conn) (λ c. ok (c, u))
              (Leaves-any (release_context conn)) (λ c _. Unnumbered-trans s t u h k)))

pub handle_write-Counts :
    (env : Env) (conn : Connection) (s : System) → Leaves (Counts s) (handle_write env conn s)
unfolding handle_write
handle_write-Counts env conn s =
    Leaves-bind (λ _. Unit) (Counts s) (context_of conn) _ (Leaves-any (context_of conn))
      (λ c _.
        let pumped = pump_stream env.io_size conn.id conn.send_len c in
        let grown = env.send_len_after conn.send_len pumped.0 in
        let s1 : System = record s { calls = s.calls ++ pumped.0 } in
        Leaves-bind (Unnumbered s1) (Counts s) (pump_all env.io_size grown s.pending_streams s1)
          (λ t. ok (record conn { fn_data = FnData.context pumped.1 }, t))
          (pump_all-Unnumbered env.io_size grown s.pending_streams s1) (λ t h. h))
