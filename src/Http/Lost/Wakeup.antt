-- ===== src/Http/Lost/Wakeup.antt =====
-- Wake-ups and poll events: they reach only what is pending.
use mongoose_cpp.Prelude.{
  ℕ, ◌≡◌, ◌≢◌, refl, Bool, true, false, List, [], ◌∷◌, Option, none, some, Bool-cases, Option-cases,
  inl, inr,
}
use mongoose_cpp.Table.{find, assign, erase}
use mongoose_cpp.Table.Keys.{nat_key}
use mongoose_cpp.Table.Values.{find-AllValues, assign-AllValues, erase-AllValues}
use mongoose_cpp.Mongoose.{MgCall, ok}
use mongoose_cpp.Http.AsyncStream.{AsyncStream}
use mongoose_cpp.Http.AsyncStream.State.{StreamState}
use mongoose_cpp.Http.AsyncResponse.{AsyncResponse}
use mongoose_cpp.Http.AsyncResponse.State.{is_streaming, is_failed}
use mongoose_cpp.Http.Endpoint.State.{
  System, Streams, Responses, deref_response, deref_stream, emit, put_response,
}
use mongoose_cpp.Http.Endpoint.Wakeup.{
  serve_stream, handle_found_stream, handle_stream, promote_stream, deliver_response,
  handle_found_response, handle_response, internal_server_error, after_response, after_stream,
  handle_wakeup,
}
use mongoose_cpp.Http.Endpoint.Events.{handle_poll, poll_responses}
use mongoose_cpp.Http.Isolation.{Leaves, Leaves-bind, Leaves-any}
use mongoose_cpp.Http.Lost.{
  IsAbsentIn, IsAbsent, IsLost, FailedAt-set_ne, put_stream-IsLost, emit-IsLost,
}

-- The map of a connection's responses is replaced.
replaced :
    (conn ref : ℕ) (t : Responses) (s : System)
    → IsAbsentIn ref t
    → IsLost ref s
    → IsAbsent ref (assign nat_key conn t s.pending_responses)
replaced conn ref t s p (f, a) =
    assign-AllValues nat_key (IsAbsentIn ref) conn t s.pending_responses p a

abbrev StaysLost : ℕ → Bool × System → Type 0
StaysLost ref a = IsLost ref a.1

module _ (conn id ref : ℕ) where
  serve_stream-IsLost :
      (t : Streams) (p : Option ℕ) (x : AsyncStream) (state : StreamState) (s : System)
      → IsLost ref s
      → IsLost ref (serve_stream conn id t p x state s).1
  unfolding serve_stream
  serve_stream-IsLost t p x StreamState.start s h =
      put_stream-IsLost (emit s _) p ref _ (emit-IsLost s ref _ h)
  serve_stream-IsLost t p x StreamState.has_data s h =
      put_stream-IsLost (emit s _) p ref _ (emit-IsLost s ref _ h)
  serve_stream-IsLost t p x StreamState.close s h =
      put_stream-IsLost (emit s _) p ref _ (emit-IsLost s ref _ h)
  serve_stream-IsLost t p x StreamState.flush s h = h
  serve_stream-IsLost t p x StreamState.empty s h = h
  serve_stream-IsLost t p x StreamState.completed s h = h
  serve_stream-IsLost t p x StreamState.failed s h = h

  handle_found_stream-IsLost :
      (t : Streams) (found : Option (Option ℕ)) (s : System)
      → IsLost ref s
      → Leaves (StaysLost ref) (handle_found_stream conn id t found s)
  unfolding handle_found_stream
  handle_found_stream-IsLost t none s h = h
  handle_found_stream-IsLost t (some p) s h =
      Leaves-bind (λ _. Unit) (StaysLost ref) (deref_stream s p)
        (λ x. ok (serve_stream conn id t p x x.state s)) (Leaves-any (deref_stream s p))
        (λ x _. serve_stream-IsLost t p x x.state s h)

  handle_stream-IsLost :
      (s : System) → IsLost ref s → Leaves (StaysLost ref) (handle_stream conn id s)
  unfolding handle_stream
  handle_stream-IsLost s h = elim (Option-cases (find nat_key conn s.pending_streams)) [
    | inl e ↦ rw (e, handle_stream) h
    | inr (t, e) ↦ rw (e, handle_stream) (handle_found_stream-IsLost t (find nat_key id t) s h)
  ]

  promote-IsLost :
      (k : ℕ) (t : Responses) (r : AsyncResponse) (s : System)
      → k ≢ ref
      → IsAbsentIn ref t
      → IsLost ref s
      → IsLost ref (promote_stream conn id k t r s)
  unfolding promote_stream put_response
  promote-IsLost k t r s ne p h = (
    FailedAt-set_ne s.responses k ref _ ne h.0,
    replaced conn ref (erase nat_key id t) s (erase-AllValues nat_key (λ v. v ≢ ref) id t p) h,
  )

  deliver-IsLost :
      (k : ℕ) (t : Responses) (r : AsyncResponse) (s : System)
      → k ≢ ref
      → IsAbsentIn ref t
      → IsLost ref s
      → IsLost ref (deliver_response conn id k t r s)
  unfolding deliver_response put_response emit
  deliver-IsLost k t r s ne p h = (
    FailedAt-set_ne s.responses k ref _ ne h.0,
    replaced conn ref (erase nat_key id t) s (erase-AllValues nat_key (λ v. v ≢ ref) id t p) h,
  )

  handle_found_response-IsLost :
      (t : Responses) (found : Option ℕ) (s : System)
      → find nat_key id t ≡ found
      → IsAbsentIn ref t
      → IsLost ref s
      → Leaves (StaysLost ref) (handle_found_response conn id t found s)
  unfolding handle_found_response
  handle_found_response-IsLost t none s e p h = emit-IsLost s ref _ h
  handle_found_response-IsLost t (some k) s e p h =
      let ne = find-AllValues nat_key (λ v. v ≢ ref) id t p e in
      Leaves-bind (λ _. Unit) (StaysLost ref) (deref_response s k) _
        (Leaves-any (deref_response s k))
        (λ r _. elim (Bool-cases (is_streaming r.state)) [
          | inl q ↦ rw q (
              handle_stream-IsLost (promote_stream conn id k t r s) (promote-IsLost k t r s ne p h))
          | inr q ↦ rw q (deliver-IsLost k t r s ne p h)
        ])

  handle_response-IsLost :
      (s : System) → IsLost ref s → Leaves (StaysLost ref) (handle_response conn id s)
  unfolding handle_response
  handle_response-IsLost s h = elim (Option-cases (find nat_key conn s.pending_responses)) [
    | inl e ↦ rw (e, handle_response) (emit-IsLost s ref (internal_server_error conn) h)
    | inr (t, e) ↦
        rw (e, handle_response)
          (handle_found_response-IsLost t (find nat_key id t) s refl
            (find-AllValues nat_key (IsAbsentIn ref) conn s.pending_responses h.1 e) h)
  ]

  after_response-IsLost : (a : Bool × System) → StaysLost ref a → IsLost ref (after_response conn a)
  unfolding after_response
  after_response-IsLost (true, t) h = h
  after_response-IsLost (false, t) h = emit-IsLost t ref _ h

  after_stream-IsLost :
      (a : Bool × System) → StaysLost ref a → Leaves (IsLost ref) (after_stream conn id a)
  unfolding after_stream
  after_stream-IsLost (true, t) h = h
  after_stream-IsLost (false, t) h =
      Leaves-bind (StaysLost ref) (IsLost ref) (handle_response conn id t)
        (λ a. ok (after_response conn a)) (handle_response-IsLost t h) after_response-IsLost

  pub handle_wakeup-IsLost :
      (s : System) → IsLost ref s → Leaves (IsLost ref) (handle_wakeup conn id s)
  unfolding handle_wakeup
  handle_wakeup-IsLost s h =
      Leaves-bind (StaysLost ref) (IsLost ref) (handle_stream conn id s) (after_stream conn id)
        (handle_stream-IsLost s h) after_stream-IsLost

module _ (conn ref : ℕ) where
  poll_responses-IsAbsentIn :
      (s : System) (t : Responses)
      → IsAbsentIn ref t
      → Leaves (λ (p : Responses × List MgCall). IsAbsentIn ref p.0) (poll_responses conn s t)
  unfolding poll_responses
  poll_responses-IsAbsentIn s [] h = tt
  poll_responses-IsAbsentIn s ((j, k) ∷ t) h =
      Leaves-bind (λ _. Unit) _ (deref_response s k) _ (Leaves-any (deref_response s k))
        (λ r _.
          Leaves-bind _ _ (poll_responses conn s t) _ (poll_responses-IsAbsentIn s t h.1) (λ p a.
            elim (Bool-cases (is_failed r.state)) [ inl q ↦ rw q a | inr q ↦ rw q (h.0, a) ]))

  pub handle_poll-IsLost : (s : System) → IsLost ref s → Leaves (IsLost ref) (handle_poll conn s)
  unfolding handle_poll
  handle_poll-IsLost s h = elim (Option-cases (find nat_key conn s.pending_responses)) [
    | inl e ↦ rw (e, handle_poll) h
    | inr (t, e) ↦
        rw (e, handle_poll)
          (Leaves-bind (λ (p : Responses × List MgCall). IsAbsentIn ref p.0) (IsLost ref)
            (poll_responses conn s t) _
            (poll_responses-IsAbsentIn s t
              (find-AllValues nat_key (IsAbsentIn ref) conn s.pending_responses h.1 e))
            (λ p a. (h.0, replaced conn ref p.0 s a h)))
  ]
