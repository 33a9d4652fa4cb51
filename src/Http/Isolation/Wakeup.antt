-- ===== src/Http/Isolation/Wakeup.antt =====
-- A wake-up and a poll event.
use mongoose_cpp.Prelude.{
  ◌==◌, ℕ, ◌≡◌, refl, ◌∙◌, ap, Bool, true, false, [], ◌∷◌, Option, none, some, arith, Bool-cases,
  Option-cases, inl, inr, List, ◌++◌, if◌then◌else◌, ==_refl, sym,
}
use mongoose_cpp.Table.{Table, find, assign, erase}
use mongoose_cpp.Table.Keys.{nat_key}
use mongoose_cpp.Table.Laws.{find-assign}
use mongoose_cpp.Mongoose.{MgCall, ok, ◌>>=◌}
use mongoose_cpp.Http.AsyncResponse.{AsyncResponse}
use mongoose_cpp.Http.AsyncResponse.State.{is_streaming, is_failed}
use mongoose_cpp.Http.AsyncStream.{AsyncStream}
use mongoose_cpp.Http.AsyncStream.State.{StreamState}
use mongoose_cpp.Http.Endpoint.State.{
  System, Streams, Responses, deref_response, deref_stream, put_response, put_stream, emit,
}
use mongoose_cpp.Http.Endpoint.Wakeup.{
  drop_stream, serve_stream, handle_found_stream, handle_stream, promote_stream, deliver_response,
  handle_found_response, handle_response, internal_server_error, after_response, after_stream,
  handle_wakeup,
}
use mongoose_cpp.Http.Endpoint.Wakeup.Lookup.{find_at, find_in}
use mongoose_cpp.Http.Endpoint.Events.{handle_poll, poll_responses}
use mongoose_cpp.Http.Isolation.{
  Leaves, Leaves-bind, Leaves-any, Leaves-of, Leaves-weaken, Apart, IsIdle, Stays, Stays-same,
  Stays-trans, Stays-of_pending, Apart-trans,
}

module _ {V : Type 0} where
  -- Another connection's entries after an assignment or an erasure.
  find_at-assign_ne :
      (conn c id : ℕ) (t : Table ℕ V) (m : Table ℕ (Table ℕ V))
      → (conn == c) ≡ false
      → find_at c id (assign nat_key conn t m) ≡ find_at c id m
  find_at-assign_ne conn c id t m h = rw (find-assign nat_key conn c t m) (rw h)

  pub find-erase_ne :
      (conn c : ℕ) (m : Table ℕ V)
      → (conn == c) ≡ false
      → find nat_key c (erase nat_key conn m) ≡ find nat_key c m
  unfolding find erase
  find-erase_ne conn c [] h = refl
  find-erase_ne conn c ((j, w) ∷ m) h = ground (arith, find-erase_ne conn c m h)

find_at-drop_stream_ne :
    (conn id c i : ℕ) (t : Streams) (m : Table ℕ Streams)
    → (conn == c) ≡ false
    → find_at c i (drop_stream conn id t m) ≡ find_at c i m
unfolding drop_stream
find_at-drop_stream_ne conn id c i t m h = go (erase nat_key id t)
  where
    go :
        (left : Streams)
        → find_at c i (elim left as (λ _. Table ℕ Streams) [
          | [] ↦ erase nat_key conn m
          | s ∷ rest ↦ assign nat_key conn (s ∷ rest) m
        ])
          ≡ find_at c i m
    go [] = ap (find_in i) (find-erase_ne conn c m h)
    go (s ∷ rest) = find_at-assign_ne conn c i (s ∷ rest) m h

put_stream-Stays :
    (conn : ℕ) (s : System) (ref : Option ℕ) (x : AsyncStream) → Stays conn s (put_stream s ref x)
unfolding put_stream
put_stream-Stays conn s none x = Stays-same conn s (put_stream s none x) refl refl
put_stream-Stays conn s (some ref) x = Stays-same conn s (put_stream s (some ref) x) refl refl

pub emit-Stays : (conn : ℕ) (s : System) (call : MgCall) → Stays conn s (emit s call)
unfolding emit
emit-Stays conn s call = Stays-same conn s (emit s call) refl refl

served-Apart :
    (conn : ℕ) (s : System) (call : MgCall) (ref : Option ℕ) (x : AsyncStream)
    → Apart conn s (put_stream (emit s call) ref x)
served-Apart conn s call ref x =
    Apart-trans conn s (emit s call) (put_stream (emit s call) ref x) (emit-Stays conn s call).0
      (put_stream-Stays conn (emit s call) ref x).0

serve_stream-Apart :
    (conn id : ℕ) (t : Streams) (ref : Option ℕ) (x : AsyncStream) (state : StreamState)
    (s : System)
    → Apart conn s (serve_stream conn id t ref x state s).1
unfolding serve_stream
serve_stream-Apart conn id t ref x StreamState.start s = served-Apart conn s _ ref _
serve_stream-Apart conn id t ref x StreamState.has_data s = served-Apart conn s _ ref _
serve_stream-Apart conn id t ref x StreamState.close s = λ c i h.
    let (p, q) = served-Apart conn s _ ref _ c i h in
    (p, find_at-drop_stream_ne conn id c i t _ h ∙ q)
serve_stream-Apart conn id t ref x StreamState.flush s = λ c i h. (refl, refl)
serve_stream-Apart conn id t ref x StreamState.empty s = λ c i h. (refl, refl)
serve_stream-Apart conn id t ref x StreamState.completed s = λ c i h. (refl, refl)
serve_stream-Apart conn id t ref x StreamState.failed s = λ c i h. (refl, refl)

busy_stream :
    (conn id : ℕ) (s : System) {ref : Option ℕ}
    → find_at conn id s.pending_streams ≡ some ref
    → IsIdle conn s
    → ⊥
busy_stream conn id s e idle = cc (e, (idle id).1)

handle_found_stream-Stays :
    (conn id : ℕ) (t : Streams) (found : Option (Option ℕ)) (s : System)
    → find_at conn id s.pending_streams ≡ found
    → Leaves (λ (r : Bool × System). Stays conn s r.1) (handle_found_stream conn id t found s)
unfolding handle_found_stream
handle_found_stream-Stays conn id t none s e = Stays-same conn s s refl refl
handle_found_stream-Stays conn id t (some ref) s e =
    Leaves-bind (λ _. Unit) (λ (r : Bool × System). Stays conn s r.1) (deref_stream s ref)
      (λ x. ok (serve_stream conn id t ref x x.state s)) (Leaves-any (deref_stream s ref))
      (λ x _.
        Stays-of_pending conn s (serve_stream conn id t ref x x.state s).1 (busy_stream conn id s e)
          (serve_stream-Apart conn id t ref x x.state s))

-- A wake-up, as far as the pending streams answer it.
handle_stream-Stays :
    (conn id : ℕ) (s : System)
    → Leaves (λ (r : Bool × System). Stays conn s r.1) (handle_stream conn id s)
unfolding handle_stream
handle_stream-Stays conn id s = elim (Option-cases (find nat_key conn s.pending_streams)) [
  | inl e ↦
      Leaves-of (λ (r : Bool × System). Stays conn s r.1) _ (ok (false, s)) (rw (e, handle_stream))
        (Stays-same conn s s refl refl)
  | inr (t, e) ↦
      Leaves-of (λ (r : Bool × System). Stays conn s r.1) _
        (handle_found_stream conn id t (find nat_key id t) s) (rw (e, handle_stream))
        (handle_found_stream-Stays conn id t (find nat_key id t) s (ap (find_in id) e))
]

promote-Apart :
    (conn id ref : ℕ) (t : Responses) (r : AsyncResponse) (s : System)
    → Apart conn s (promote_stream conn id ref t r s)
unfolding promote_stream put_response
promote-Apart conn id ref t r s = λ c i h. (
  find_at-assign_ne conn c i _ s.pending_responses h,
  find_at-assign_ne conn c i _ s.pending_streams h,
)

deliver-Apart :
    (conn id ref : ℕ) (t : Responses) (r : AsyncResponse) (s : System)
    → Apart conn s (deliver_response conn id ref t r s)
unfolding deliver_response put_response emit
deliver-Apart conn id ref t r s =
    λ c i h. (find_at-assign_ne conn c i _ s.pending_responses h, refl)

busy_response :
    (conn id : ℕ) (s : System) {ref : ℕ}
    → find_at conn id s.pending_responses ≡ some ref
    → IsIdle conn s
    → ⊥
busy_response conn id s e idle = cc (e, (idle id).0)

-- What the response of the wake-up does, streaming or not.
answer-Apart :
    (conn id ref : ℕ) (t : Responses) (r : AsyncResponse) (s : System)
    → Leaves
        (λ (a : Bool × System). Apart conn s a.1)
        (if is_streaming r.state
          then handle_stream conn id (promote_stream conn id ref t r s)
          else ok (true, deliver_response conn id ref t r s))
answer-Apart conn id ref t r s = elim (Bool-cases (is_streaming r.state)) [
  | inl p ↦
      let u = promote_stream conn id ref t r s in
      rw p (
        Leaves-weaken (λ (a : Bool × System). Stays conn u a.1) (λ a. Apart conn s a.1)
          (handle_stream conn id u)
          (λ a h. Apart-trans conn s u a.1 (promote-Apart conn id ref t r s) h.0)
          (handle_stream-Stays conn id u))
  | inr p ↦ rw p (deliver-Apart conn id ref t r s)
]

handle_found_response-Stays :
    (conn id : ℕ) (t : Responses) (found : Option ℕ) (s : System)
    → find_at conn id s.pending_responses ≡ found
    → Leaves (λ (a : Bool × System). Stays conn s a.1) (handle_found_response conn id t found s)
unfolding handle_found_response
handle_found_response-Stays conn id t none s e = emit-Stays conn s _
handle_found_response-Stays conn id t (some ref) s e =
    Leaves-bind (λ _. Unit) (λ (a : Bool × System). Stays conn s a.1) (deref_response s ref) _
      (Leaves-any (deref_response s ref))
      (λ r _.
        Leaves-weaken (λ (a : Bool × System). Apart conn s a.1) (λ a. Stays conn s a.1) _
          (λ a. Stays-of_pending conn s a.1 (busy_response conn id s e))
          (answer-Apart conn id ref t r s))

handle_response-Stays :
    (conn id : ℕ) (s : System)
    → Leaves (λ (a : Bool × System). Stays conn s a.1) (handle_response conn id s)
unfolding handle_response
handle_response-Stays conn id s = elim (Option-cases (find nat_key conn s.pending_responses)) [
  | inl e ↦
      Leaves-of (λ (a : Bool × System). Stays conn s a.1) _
        (ok (false, emit s (internal_server_error conn))) (rw (e, handle_response))
        (emit-Stays conn s (internal_server_error conn))
  | inr (t, e) ↦
      Leaves-of (λ (a : Bool × System). Stays conn s a.1) _
        (handle_found_response conn id t (find nat_key id t) s) (rw (e, handle_response))
        (handle_found_response-Stays conn id t (find nat_key id t) s (ap (find_in id) e))
]

after_response-Stays :
    (conn : ℕ) (s : System) (a : Bool × System)
    → Stays conn s a.1
    → Stays conn s (after_response conn a)
unfolding after_response
after_response-Stays conn s (true, t) h = h
after_response-Stays conn s (false, t) h = Stays-trans conn s t (emit t _) h (emit-Stays conn t _)

after_stream-Stays :
    (conn id : ℕ) (s : System) (a : Bool × System)
    → Stays conn s a.1
    → Leaves (Stays conn s) (after_stream conn id a)
unfolding after_stream
after_stream-Stays conn id s (true, t) h = h
after_stream-Stays conn id s (false, t) h =
    Leaves-bind (λ (a : Bool × System). Stays conn t a.1) (Stays conn s) (handle_response conn id t)
      (λ a. ok (after_response conn a)) (handle_response-Stays conn id t)
      (λ a k. after_response-Stays conn s a (Stays-trans conn s t a.1 h k))

pub handle_wakeup-Stays :
    (conn id : ℕ) (s : System) → Leaves (Stays conn s) (handle_wakeup conn id s)
unfolding handle_wakeup
handle_wakeup-Stays conn id s =
    Leaves-bind (λ (a : Bool × System). Stays conn s a.1) (Stays conn s) (handle_stream conn id s)
      (after_stream conn id) (handle_stream-Stays conn id s) (after_stream-Stays conn id s)

poll_responses-Absent :
    (conn : ℕ) (s : System) (t : Responses)
    → Leaves
        (λ (p : Responses × List MgCall).
          (id : ℕ) → find nat_key id t ≡ none → find nat_key id p.0 ≡ none)
        (poll_responses conn s t)
unfolding poll_responses find
poll_responses-Absent conn s [] = λ id h. h
poll_responses-Absent conn s ((j, ref) ∷ t) =
    Leaves-bind (λ _. Unit) _ (deref_response s ref) _ (Leaves-any (deref_response s ref))
      (λ r _. Leaves-bind _ _ (poll_responses conn s t) _ (poll_responses-Absent conn s t) (λ p h.
        elim (Bool-cases (is_failed r.state)) [
          | inl q ↦ rw q (λ id e. ground (arith, h id))
          | inr q ↦ rw q (λ id e. ground (arith, h id))
        ]))

polled : System → ℕ → Responses × List MgCall → System
polled s conn p = record s {
  endpoint = record s.endpoint { pending_responses = assign nat_key conn p.0 s.pending_responses };
  calls = s.calls ++ p.1;
}

polled-Stays :
    (conn : ℕ) (s : System) (t : Responses) (p : Responses × List MgCall)
    → find nat_key conn s.pending_responses ≡ some t
    → ((id : ℕ) → find nat_key id t ≡ none → find nat_key id p.0 ≡ none)
    → Stays conn s (polled s conn p)
unfolding polled
polled-Stays conn s t p e h = (
  λ c id d. (find_at-assign_ne conn c id p.0 s.pending_responses d, refl),
  λ idle id. (
    rw (find-assign nat_key conn conn p.0 s.pending_responses)
        (rw (==_refl conn) (h id (ap (find_in id) (sym e) ∙ (idle id).0))),
    (idle id).1,
  ),
)

pub handle_poll-Stays : (conn : ℕ) (s : System) → Leaves (Stays conn s) (handle_poll conn s)
unfolding handle_poll polled
handle_poll-Stays conn s = elim (Option-cases (find nat_key conn s.pending_responses)) [
  | inl e ↦ Leaves-of (Stays conn s) _ (ok s) (rw (e, handle_poll)) (Stays-same conn s s refl refl)
  | inr (t, e) ↦
      Leaves-of (Stays conn s) _ (poll_responses conn s t >>= λ p. ok (polled s conn p))
        (rw (e, handle_poll))
        (Leaves-bind
          (λ (p : Responses × List MgCall).
            (id : ℕ) → find nat_key id t ≡ none → find nat_key id p.0 ≡ none)
          (Stays conn s) (poll_responses conn s t) (λ p. ok (polled s conn p))
          (poll_responses-Absent conn s t) (λ p h. polled-Stays conn s t p e h))
]
