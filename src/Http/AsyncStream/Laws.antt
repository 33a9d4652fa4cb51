-- ===== src/Http/AsyncStream/Laws.antt =====
-- What a producer can rely on in `wait`, and what it cannot rely on after a failure.
use mongoose_cpp.Prelude.{
  ℕ, zero, suc, ◌≡◌, ◌≢◌, refl, true, false, List, [], ◌∷◌, ◌++◌, none, some, Bytes, All, replicate,
}
use mongoose_cpp.Mongoose.{Wakeup, gone, refused, posted}
use mongoose_cpp.Http.AsyncStream
use mongoose_cpp.Http.AsyncStream.{AsyncStream}
use mongoose_cpp.Http.AsyncStream.State.{StreamState}

-- The states in which the stream is with the event loop, so the producer has to wait.
abbrev pub IsBusy : StreamState → Type 0
IsBusy StreamState.start = Unit
IsBusy StreamState.has_data = Unit
IsBusy StreamState.flush = Unit
IsBusy StreamState.close = Unit
IsBusy _ = ⊥

wait-append :
    (busy seen : List StreamState)
    → All IsBusy busy
    → AsyncStream.wait (busy ++ seen) ≡ AsyncStream.wait seen
unfolding AsyncStream.wait
wait-append [] seen h = refl
wait-append (StreamState.start ∷ busy) seen h = wait-append busy seen h.1
wait-append (StreamState.has_data ∷ busy) seen h = wait-append busy seen h.1
wait-append (StreamState.flush ∷ busy) seen h = wait-append busy seen h.1
wait-append (StreamState.close ∷ busy) seen h = wait-append busy seen h.1
wait-append (StreamState.empty ∷ busy) seen h = elim h.0 [ ]
wait-append (StreamState.completed ∷ busy) seen h = elim h.0 [ ]
wait-append (StreamState.failed ∷ busy) seen h = elim h.0 [ ]

wait_busy : (busy : List StreamState) → All IsBusy busy → AsyncStream.wait busy ≡ none
unfolding AsyncStream.wait
wait_busy [] h = refl
wait_busy (StreamState.start ∷ busy) h = wait_busy busy h.1
wait_busy (StreamState.has_data ∷ busy) h = wait_busy busy h.1
wait_busy (StreamState.flush ∷ busy) h = wait_busy busy h.1
wait_busy (StreamState.close ∷ busy) h = wait_busy busy h.1
wait_busy (StreamState.empty ∷ busy) h = elim h.0 [ ]
wait_busy (StreamState.completed ∷ busy) h = elim h.0 [ ]
wait_busy (StreamState.failed ∷ busy) h = elim h.0 [ ]

-- `wait` sleeps through every busy state, returns true at the first `empty` and false at the first
-- `failed` or `completed`, whatever follows.
wait_settles :
    (busy seen : List StreamState)
    → All IsBusy busy
    → (AsyncStream.wait busy ≡ none)
      × (AsyncStream.wait (busy ++ StreamState.empty ∷ seen) ≡ some true)
      × (AsyncStream.wait (busy ++ StreamState.failed ∷ seen) ≡ some false)
      × (AsyncStream.wait (busy ++ StreamState.completed ∷ seen) ≡ some false)
unfolding AsyncStream.wait
wait_settles busy seen h = (
  wait_busy busy h,
  wait-append busy (StreamState.empty ∷ seen) h,
  wait-append busy (StreamState.failed ∷ seen) h,
  wait-append busy (StreamState.completed ∷ seen) h,
)

IsBusy-replicate : (n : ℕ) → All IsBusy (replicate n StreamState.has_data)
IsBusy-replicate zero = tt
IsBusy-replicate (suc n) = (tt, IsBusy-replicate n)

-- A `send` to a stream that has failed, whose wake-up is not refused, takes the failure back: `failed`
-- answers false again, and a `wait` that finds the state it left sleeps however often it looks.
pub send_forgets_failure :
    (s : AsyncStream) (body : Bytes) (answer : Wakeup) (n : ℕ)
    → answer ≢ refused
    → let after = (AsyncStream.send (AsyncStream.mark_failed s) body answer).0 in
      (AsyncStream.failed (AsyncStream.mark_failed s) ≡ true)
      × (AsyncStream.failed after ≡ false)
      × (AsyncStream.wait (replicate n after.state) ≡ none)
unfolding AsyncStream.send AsyncStream.failed AsyncStream.mark_failed
send_forgets_failure s body gone n h = (refl, refl, wait_busy _ (IsBusy-replicate n))
send_forgets_failure s body refused n h = absurd (h refl)
send_forgets_failure s body posted n h = (refl, refl, wait_busy _ (IsBusy-replicate n))
