-- ===== src/Http/Producer/Chunks.antt =====
-- What a connection gets of a produced stream, in any order of the steps, and that the stream ends.
use mongoose_cpp.Prelude.{
  ℕ, ◌≡◌, refl, sym, ◌∙◌, subst, Bool, true, false, List, [], ◌∷◌, ◌++◌, Option, none, some, Bytes,
  get_elem?, append-nil, ◌⊎◌, inl, inr,
}
use mongoose_cpp.Mongoose.{MgCall}
use mongoose_cpp.Http.AsyncStream
use mongoose_cpp.Http.AsyncStream.{AsyncStream}
use mongoose_cpp.Http.Connection.Pump.{chunk_calls}
use mongoose_cpp.Http.Endpoint.State.{Env}
use mongoose_cpp.Http.Endpoint.Wakeup.Lookup.{find_at}
use mongoose_cpp.Http.Safety.Backpressure.{IsFlushed}
use mongoose_cpp.Http.Safety.Inv.{Inv}
use mongoose_cpp.Http.Safety.Events.{handle_write-Inv}
use mongoose_cpp.Http.Safety.Users.{stream_send-Inv, stream_close-Inv}
use mongoose_cpp.Http.Safety.Wakeup.{handle_wakeup-Inv}
use mongoose_cpp.Http.Producer.{
  Run, produce, turn, produce_next, after_wait, Step, produces, wakes, writes, Steps, here, next,
}
use mongoose_cpp.Http.Producer.Pumping.{handle_write-pumps}
use mongoose_cpp.Http.Producer.Phases.{Phase, idle, flying, ending, ended, whole, produce-Phase}
use mongoose_cpp.Http.Producer.Loop.{ok-injective, wake-Phase, Phase-Pumped}

produce_next-Inv :
    (ref : ℕ) (todo : List Bytes) (r : Run) → Inv r.system → Inv (produce_next ref todo r).system
unfolding produce_next
produce_next-Inv ref [] r v = stream_close-Inv r.system ref _ v
produce_next-Inv ref (chunk ∷ rest) r v = stream_send-Inv r.system ref chunk _ v

turn-Inv :
    (ref : ℕ) (d : Bool) (x : Option AsyncStream) (r : Run)
    → Inv r.system
    → Inv (turn ref d x r).system
unfolding turn
turn-Inv ref true x r v = v
turn-Inv ref false none r v = v
turn-Inv ref false (some x) r v = waited (AsyncStream.wait (x.state ∷ []))
  where
    waited : (w : Option Bool) → Inv (after_wait ref w r).system
    waited none = v
    waited (some false) = v
    waited (some true) = produce_next-Inv ref r.todo r v

module _ {env : Env} {conn id ref : ℕ} {base : List MgCall} {chunks : List Bytes} where
  -- One step keeps the invariant of the endpoint, and the stream in its phases.
  pub step_keeps :
      {r t : Run}
      → Step env conn id ref r t
      → Inv r.system
      → Phase conn id ref base chunks r
      → Inv t.system × Phase conn id ref base chunks t
  unfolding produce
  step_keeps {r} produces v p =
      (turn-Inv ref r.is_done (get_elem? r.system.streams ref) r v, produce-Phase r p)
  step_keeps {r} (wakes n s h e) v p =
      let (t, q, w) = handle_wakeup-Inv conn id r.system v in
      (subst Inv (ok-injective (sym q ∙ e)) w, wake-Phase r n s h e p)
  step_keeps {r} (writes c m served quiet e) v p =
      let (t, q, _, w) = handle_write-Inv env c r.system m v in
      let (u, q2, calls, same, pumped) =
        handle_write-pumps env c m.remote r.system m.held quiet v in
      (
        subst (λ a. Inv a.1) (ok-injective (sym q ∙ e)) w,
        subst (λ a. Phase conn id ref base chunks (record r { system = a.1 }))
            (ok-injective (sym q2 ∙ e))
            (Phase-Pumped env.io_size (env.send_len_after c.send_len []) r u calls same (pumped ref)
              p),
      )

  pub steps_keep :
      {r t : Run}
      → Steps env conn id ref r t
      → Inv r.system
      → Phase conn id ref base chunks r
      → Inv t.system × Phase conn id ref base chunks t
  steps_keep here v p = (v, p)
  steps_keep (next path s) v p = let (w, q) = steps_keep path v p in step_keeps s w q

-- What a stream in one of its phases has had written: the first chunks, and the end behind all of
-- them.
abbrev pub Written : ℕ → List MgCall → List Bytes → Run → Type 0
Written conn base chunks r =
    (sent rest : List Bytes) × (sent ++ rest ≡ chunks)
    × ((r.system.calls ≡ base ++ chunk_calls conn sent)
        ⊎ ((rest ≡ []) × (r.system.calls ≡ base ++ whole conn sent)))

Phase-Written :
    (conn id ref : ℕ) (base : List MgCall) (chunks : List Bytes) (r : Run)
    → Phase conn id ref base chunks r
    → Written conn base chunks r
Phase-Written conn id ref base chunks r (idle i) = (i.delivered, r.todo, i.split, inl i.calls)
Phase-Written conn id ref base chunks r (flying f) = (f.delivered, _, f.split, inl f.calls)
Phase-Written conn id ref base chunks r (ending f) = (chunks, [], append-nil chunks, inl f.calls)
Phase-Written conn id ref base chunks r (ended f) =
    (chunks, [], append-nil chunks, inr (refl, f.calls))

-- A thread that has started on the chunks of a stream.
abbrev pub Starts : ℕ → ℕ → ℕ → Run → Type 0
Starts conn id ref r =
    Inv r.system
    × (find_at conn id r.system.pending_streams ≡ some (some ref))
    × ((x : AsyncStream) × (get_elem? r.system.streams ref ≡ some x) × IsFlushed x.state)
    × (r.is_done ≡ false)
    × (r.inbox ≡ 0)

pub start-Phase :
    (conn id ref : ℕ) (r : Run) → Starts conn id ref r → Phase conn id ref r.system.calls r.todo r
start-Phase conn id ref r (v, pending, (x, at, st), d, q) = idle (record {
  stream = x;
  delivered = [];
  pending = pending;
  at = at;
  state = st;
  in_loop = d;
  quiet = q;
  split = refl;
  calls = sym (append-nil r.system.calls);
})

-- Where a thread has a flushed or empty stream that is pending, its loop over `wait`, `send` and
-- `close`, in any order of steps with the wake-ups that it posts and with write events, has its chunks
-- written in their order, each once at most, and the chunk that ends the answer once at most, when all
-- of them are written.
pub chunks_in_order :
    (env : Env) (conn id ref : ℕ) (r t : Run)
    → Starts conn id ref r
    → Steps env conn id ref r t
    → Written conn r.system.calls r.todo t
chunks_in_order env conn id ref r t s path =
    Phase-Written conn id ref r.system.calls r.todo t
      (steps_keep path s.0 (start-Phase conn id ref r s)).1
