-- ===== src/Http/Numbers/Wakeup.antt =====
-- Wake-ups and poll events make no response and no stream, and count nothing.
use mongoose_cpp.Prelude.{
  ℕ, ◌≡◌, refl, Bool, true, false, Option, none, some, Bool-cases, Option-cases, inl, inr,
  get_elem?, if◌then◌else◌,
}
use mongoose_cpp.Table.{find}
use mongoose_cpp.Table.Keys.{nat_key}
use mongoose_cpp.Mongoose.{ok}
use mongoose_cpp.Http.AsyncStream
use mongoose_cpp.Http.AsyncStream.{AsyncStream}
use mongoose_cpp.Http.AsyncStream.State.{StreamState}
use mongoose_cpp.Http.AsyncResponse
use mongoose_cpp.Http.AsyncResponse.{AsyncResponse}
use mongoose_cpp.Http.AsyncResponse.State.{is_streaming}
use mongoose_cpp.Http.Endpoint.State.{
  System, Streams, Responses, deref_response, deref_stream, emit,
}
use mongoose_cpp.Http.Endpoint.Wakeup.{
  serve_stream, handle_found_stream, handle_stream, promote_stream, deliver_response,
  handle_found_response, handle_response, internal_server_error, after_response, after_stream,
  handle_wakeup,
}
use mongoose_cpp.Http.Endpoint.Events.{handle_poll, poll_responses}
use mongoose_cpp.Http.Isolation.{Leaves, Leaves-bind, Leaves-any, Leaves-of, Leaves-weaken}
use mongoose_cpp.Http.Numbers.{Settles-refl, Unnumbered, Unnumbered-trans}
use mongoose_cpp.Http.Numbers.Shared.{
  StreamAt, deref_response-Leaves, deref_stream-Leaves, put_response-Unnumbered,
  put_stream-Unnumbered,
}

-- The second half of an answer.
abbrev Quiet : System → Bool × System → Type 0
Quiet s a = Unnumbered s a.1

serve_stream-Unnumbered :
    (conn id : ℕ) (t : Streams) (ref : Option ℕ) (x : AsyncStream) (state : StreamState)
    (s : System)
    → StreamAt s ref x
    → Unnumbered s (serve_stream conn id t ref x state s).1
unfolding serve_stream emit AsyncStream.get_data AsyncStream.mark_flush AsyncStream.mark_completed
serve_stream-Unnumbered conn id t ref x StreamState.start s h =
    put_stream-Unnumbered (emit s _) ref x _ h refl
serve_stream-Unnumbered conn id t ref x StreamState.has_data s h =
    put_stream-Unnumbered (emit s _) ref x _ h refl
serve_stream-Unnumbered conn id t ref x StreamState.close s h =
    put_stream-Unnumbered (emit s _) ref x _ h refl
serve_stream-Unnumbered conn id t ref x StreamState.flush s h =
    (refl, refl, refl, Settles-refl s.responses)
serve_stream-Unnumbered conn id t ref x StreamState.empty s h =
    (refl, refl, refl, Settles-refl s.responses)
serve_stream-Unnumbered conn id t ref x StreamState.completed s h =
    (refl, refl, refl, Settles-refl s.responses)
serve_stream-Unnumbered conn id t ref x StreamState.failed s h =
    (refl, refl, refl, Settles-refl s.responses)

handle_found_stream-Quiet :
    (conn id : ℕ) (t : Streams) (found : Option (Option ℕ)) (s : System)
    → Leaves (Quiet s) (handle_found_stream conn id t found s)
unfolding handle_found_stream
handle_found_stream-Quiet conn id t none s = (refl, refl, refl, Settles-refl s.responses)
handle_found_stream-Quiet conn id t (some ref) s =
    Leaves-bind (StreamAt s ref) (Quiet s) (deref_stream s ref)
      (λ x. ok (serve_stream conn id t ref x x.state s)) (deref_stream-Leaves s ref)
      (λ x h. serve_stream-Unnumbered conn id t ref x x.state s h)

handle_stream-Quiet : (conn id : ℕ) (s : System) → Leaves (Quiet s) (handle_stream conn id s)
unfolding handle_stream
handle_stream-Quiet conn id s = elim (Option-cases (find nat_key conn s.pending_streams)) [
  | inl e ↦
      Leaves-of (Quiet s) _ (ok (false, s)) (rw (e, handle_stream))
        (refl, refl, refl, Settles-refl s.responses)
  | inr (t, e) ↦
      Leaves-of (Quiet s) _ (handle_found_stream conn id t (find nat_key id t) s)
        (rw (e, handle_stream)) (handle_found_stream-Quiet conn id t (find nat_key id t) s)
]

promote-Unnumbered :
    (conn id ref : ℕ) (t : Responses) (r : AsyncResponse) (s : System)
    → get_elem? s.responses ref ≡ some r
    → Unnumbered s (promote_stream conn id ref t r s)
unfolding promote_stream AsyncResponse.get_stream
promote-Unnumbered conn id ref t r s h = put_response-Unnumbered s ref r _ h refl (λ p. p)

deliver-Unnumbered :
    (conn id ref : ℕ) (t : Responses) (r : AsyncResponse) (s : System)
    → get_elem? s.responses ref ≡ some r
    → Unnumbered s (deliver_response conn id ref t r s)
unfolding deliver_response emit AsyncResponse.mark_completed
deliver-Unnumbered conn id ref t r s h =
    put_response-Unnumbered (emit s _) ref r _ h refl (λ p. refl)

answer-Quiet :
    (conn id ref : ℕ) (t : Responses) (r : AsyncResponse) (s : System)
    → get_elem? s.responses ref ≡ some r
    → Leaves (Quiet s) (
        if is_streaming r.state
        then handle_stream conn id (promote_stream conn id ref t r s)
        else ok (true, deliver_response conn id ref t r s))
answer-Quiet conn id ref t r s h = elim (Bool-cases (is_streaming r.state)) [
  | inl p ↦
      let u = promote_stream conn id ref t r s in
      rw p (
        Leaves-weaken (Quiet u) (Quiet s) (handle_stream conn id u)
          (λ a. Unnumbered-trans s u a.1 (promote-Unnumbered conn id ref t r s h))
          (handle_stream-Quiet conn id u))
  | inr p ↦ rw p (deliver-Unnumbered conn id ref t r s h)
]

handle_found_response-Quiet :
    (conn id : ℕ) (t : Responses) (found : Option ℕ) (s : System)
    → Leaves (Quiet s) (handle_found_response conn id t found s)
unfolding handle_found_response emit
handle_found_response-Quiet conn id t none s = (refl, refl, refl, Settles-refl s.responses)
handle_found_response-Quiet conn id t (some ref) s =
    Leaves-bind (λ r. get_elem? s.responses ref ≡ some r) (Quiet s) (deref_response s ref) _
      (deref_response-Leaves s ref) (λ r h. answer-Quiet conn id ref t r s h)

handle_response-Quiet : (conn id : ℕ) (s : System) → Leaves (Quiet s) (handle_response conn id s)
unfolding handle_response emit
handle_response-Quiet conn id s = elim (Option-cases (find nat_key conn s.pending_responses)) [
  | inl e ↦
      Leaves-of (Quiet s) _ (ok (false, emit s (internal_server_error conn)))
        (rw (e, handle_response)) (refl, refl, refl, Settles-refl s.responses)
  | inr (t, e) ↦
      Leaves-of (Quiet s) _ (handle_found_response conn id t (find nat_key id t) s)
        (rw (e, handle_response)) (handle_found_response-Quiet conn id t (find nat_key id t) s)
]

after_response-Unnumbered :
    (conn : ℕ) (s : System) (a : Bool × System) → Quiet s a → Unnumbered s (after_response conn a)
unfolding after_response emit
after_response-Unnumbered conn s (true, t) h = h
after_response-Unnumbered conn s (false, t) h = h

after_stream-Unnumbered :
    (conn id : ℕ) (s : System) (a : Bool × System)
    → Quiet s a
    → Leaves (Unnumbered s) (after_stream conn id a)
unfolding after_stream
after_stream-Unnumbered conn id s (true, t) h = h
after_stream-Unnumbered conn id s (false, t) h =
    Leaves-bind (Quiet t) (Unnumbered s) (handle_response conn id t)
      (λ a. ok (after_response conn a)) (handle_response-Quiet conn id t)
      (λ a k. after_response-Unnumbered conn s a (Unnumbered-trans s t a.1 h k))

pub handle_wakeup-Unnumbered :
    (conn id : ℕ) (s : System) → Leaves (Unnumbered s) (handle_wakeup conn id s)
unfolding handle_wakeup
handle_wakeup-Unnumbered conn id s =
    Leaves-bind (Quiet s) (Unnumbered s) (handle_stream conn id s) (after_stream conn id)
      (handle_stream-Quiet conn id s) (after_stream-Unnumbered conn id s)

pub handle_poll-Unnumbered : (conn : ℕ) (s : System) → Leaves (Unnumbered s) (handle_poll conn s)
unfolding handle_poll
handle_poll-Unnumbered conn s = elim (Option-cases (find nat_key conn s.pending_responses)) [
  | inl e ↦
      Leaves-of (Unnumbered s) _ (ok s) (rw (e, handle_poll))
        (refl, refl, refl, Settles-refl s.responses)
  | inr (t, e) ↦
      rw (e, handle_poll)
        (Leaves-bind (λ _. Unit) (Unnumbered s) (poll_responses conn s t) _
          (Leaves-any (poll_responses conn s t))
          (λ p _. (refl, refl, refl, Settles-refl s.responses)))
]
