-- ===== src/Http/Isolation/Events.antt =====
-- The other events, and all of them together.
use mongoose_cpp.Prelude.{
  ℕ, ◌≡◌, refl, ◌∙◌, ap, [], ◌∷◌, Option, none, some, inl, inr, Option-cases,
}
use mongoose_cpp.Table.{Table, find, erase}
use mongoose_cpp.Table.Keys.{nat_key}
use mongoose_cpp.Mongoose.{ok, ◌>>=◌}
use mongoose_cpp.Http.AsyncResponse
use mongoose_cpp.Http.AsyncResponse.{AsyncResponse}
use mongoose_cpp.Http.AsyncStream
use mongoose_cpp.Http.AsyncStream.{AsyncStream}
use mongoose_cpp.Http.Connection.{Connection, pump_async_stream}
use mongoose_cpp.Http.Endpoint.State.{
  System, Responses, Streams, deref_response, deref_stream, put_response, put_stream,
}
use mongoose_cpp.Http.Endpoint.Wakeup.Lookup.{find_at, find_in}
use mongoose_cpp.Http.Endpoint.Events.{
  handle_close, pump_streams, pump_all, fail_responses, fail_streams, close_responses,
  close_streams, release_context,
}
use mongoose_cpp.Http.Isolation.{
  Leaves, Leaves-bind, Leaves-weaken, Leaves-any, Leaves-of, Apart, Apart-trans,
}
use mongoose_cpp.Http.Isolation.Wakeup.{find-erase_ne}

abbrev SameEndpoint : System → System → Type 0
SameEndpoint s t = t.endpoint ≡ s.endpoint

put_stream-endpoint :
    (s : System) (ref : Option ℕ) (x : AsyncStream) → (put_stream s ref x).endpoint ≡ s.endpoint
unfolding put_stream
put_stream-endpoint s none x = refl
put_stream-endpoint s (some ref) x = refl

put_response-endpoint :
    (s : System) (ref : ℕ) (r : AsyncResponse) → (put_response s ref r).endpoint ≡ s.endpoint
unfolding put_response
put_response-endpoint s ref r = refl

-- The loops over streams and responses leave the maps alone.
pump_streams-endpoint :
    (io_size send_len : ℕ) (t : Streams) (s : System)
    → Leaves (SameEndpoint s) (pump_streams io_size send_len t s)
unfolding pump_streams
pump_streams-endpoint io_size send_len [] s = refl
pump_streams-endpoint io_size send_len ((id, ref) ∷ t) s =
    Leaves-bind (λ _. Unit) (SameEndpoint s) (deref_stream s ref) _
      (Leaves-any (deref_stream s ref))
      (λ x _.
        let s1 = put_stream s ref (pump_async_stream io_size send_len x) in
        Leaves-weaken (SameEndpoint s1) (SameEndpoint s) (pump_streams io_size send_len t s1)
          (λ u h. h ∙ put_stream-endpoint s ref _) (pump_streams-endpoint io_size send_len t s1))

pub pump_all-endpoint :
    (io_size send_len : ℕ) (m : Table ℕ Streams) (s : System)
    → Leaves (SameEndpoint s) (pump_all io_size send_len m s)
unfolding pump_all
pump_all-endpoint io_size send_len [] s = refl
pump_all-endpoint io_size send_len ((conn, t) ∷ m) s =
    Leaves-bind (SameEndpoint s) (SameEndpoint s) (pump_streams io_size send_len t s)
      (pump_all io_size send_len m) (pump_streams-endpoint io_size send_len t s)
      (λ u h.
        Leaves-weaken (SameEndpoint u) (SameEndpoint s) (pump_all io_size send_len m u)
          (λ z k. k ∙ h) (pump_all-endpoint io_size send_len m u))

fail_responses-endpoint :
    (t : Responses) (s : System) → Leaves (SameEndpoint s) (fail_responses t s)
unfolding fail_responses
fail_responses-endpoint [] s = refl
fail_responses-endpoint ((id, ref) ∷ t) s =
    Leaves-bind (λ _. Unit) (SameEndpoint s) (deref_response s ref) _
      (Leaves-any (deref_response s ref))
      (λ r _.
        let s1 = put_response s ref (AsyncResponse.mark_failed r) in
        Leaves-weaken (SameEndpoint s1) (SameEndpoint s) (fail_responses t s1)
          (λ u h. h ∙ put_response-endpoint s ref _) (fail_responses-endpoint t s1))

fail_streams-endpoint : (t : Streams) (s : System) → Leaves (SameEndpoint s) (fail_streams t s)
unfolding fail_streams
fail_streams-endpoint [] s = refl
fail_streams-endpoint ((id, ref) ∷ t) s =
    Leaves-bind (λ _. Unit) (SameEndpoint s) (deref_stream s ref) _
      (Leaves-any (deref_stream s ref))
      (λ x _.
        let s1 = put_stream s ref (AsyncStream.mark_failed x) in
        Leaves-weaken (SameEndpoint s1) (SameEndpoint s) (fail_streams t s1)
          (λ u h. h ∙ put_stream-endpoint s ref _) (fail_streams-endpoint t s1))

close_responses-Apart : (conn : ℕ) (s : System) → Leaves (Apart conn s) (close_responses conn s)
unfolding close_responses
close_responses-Apart conn s = elim (Option-cases (find nat_key conn s.pending_responses)) [
  | inl e ↦ Leaves-of (Apart conn s) _ (ok s) (rw (e, close_responses)) (λ c id h. (refl, refl))
  | inr (t, e) ↦
      Leaves-of (Apart conn s) _ (fail_responses t s >>= λ u. ok (unpend u))
        (rw (e, close_responses))
        (Leaves-bind (SameEndpoint s) (Apart conn s) (fail_responses t s) (λ u. ok (unpend u))
          (fail_responses-endpoint t s)
          (λ u h c id d. (
            ap (find_in id) (find-erase_ne conn c u.pending_responses d)
                ∙ ap (λ z. find_at c id z.pending_responses) h,
            ap (λ z. find_at c id z.pending_streams) h,
          )))
]
  where
    unpend : System → System
    unpend u = record u {
      endpoint = record u.endpoint { pending_responses = erase nat_key conn u.pending_responses };
    }

close_streams-Apart : (conn : ℕ) (s : System) → Leaves (Apart conn s) (close_streams conn s)
unfolding close_streams
close_streams-Apart conn s = elim (Option-cases (find nat_key conn s.pending_streams)) [
  | inl e ↦ Leaves-of (Apart conn s) _ (ok s) (rw (e, close_streams)) (λ c id h. (refl, refl))
  | inr (t, e) ↦
      Leaves-of (Apart conn s) _ (fail_streams t s >>= λ u. ok (unpend u)) (rw (e, close_streams)) (
        Leaves-bind (SameEndpoint s) (Apart conn s) (fail_streams t s) (λ u. ok (unpend u))
          (fail_streams-endpoint t s)
          (λ u h c id d. (
            ap (λ z. find_at c id z.pending_responses) h,
            ap (find_in id) (find-erase_ne conn c u.pending_streams d)
                ∙ ap (λ z. find_at c id z.pending_streams) h,
          )))
]
  where
    unpend : System → System
    unpend u = record u {
      endpoint = record u.endpoint { pending_streams = erase nat_key conn u.pending_streams };
    }

-- The step changes nothing under another id.
abbrev pub Spares : Connection → System → Connection × System → Type 0
Spares conn s r = Apart conn.id s r.1

pub handle_close-Spares :
    (conn : Connection) (s : System) → Leaves (Spares conn s) (handle_close conn s)
unfolding handle_close
handle_close-Spares conn s =
    Leaves-bind (Apart conn.id s) (Spares conn s) (close_responses conn.id s) _
      (close_responses-Apart conn.id s)
      (λ t h.
        Leaves-bind (Apart conn.id t) (Spares conn s) (close_streams conn.id t) _
          (close_streams-Apart conn.id t)
          (λ u k.
            Leaves-bind (λ _. Unit) (Spares conn s) (release_context conn) (λ c. ok (c, u))
              (Leaves-any (release_context conn)) (λ c _. Apart-trans conn.id s t u h k)))
