-- ===== src/Http/Producer/Finish.antt =====
-- A produced stream can always be brought to its end: no order of steps leaves it stuck.
use mongoose_cpp.Prelude.{
  ℕ, suc, ◌≡◌, ◌<◌, refl, sym, ◌∙◌, ap, subst, true, List, [], ◌∷◌, ◌++◌, none, some, Bytes,
  get_elem?,
}
use mongoose_cpp.Mongoose.{MgCall}
use mongoose_cpp.Http.AsyncStream
use mongoose_cpp.Http.AsyncStream.{AsyncStream}
use mongoose_cpp.Http.AsyncStream.State.{StreamState}
use mongoose_cpp.Http.Connection.{Connection, RemoteContext, pump_stream}
use mongoose_cpp.Http.Endpoint.State.{System, Env}
use mongoose_cpp.Http.Safety.Backpressure.{write_empties_all}
use mongoose_cpp.Http.Safety.Inv.{Inv}
use mongoose_cpp.Http.Safety.Message.{IsPromoted}
use mongoose_cpp.Http.Producer.{
  Run, produce, turn, produce_next, after_wait, Step, produces, wakes, writes, Steps, here, next,
}
use mongoose_cpp.Http.Producer.Phases.{
  Phase, idle, flying, ending, ended, Idle, Flying, Ending, Ended, whole, produce_at,
}
use mongoose_cpp.Http.Producer.Loop.{wakeup_in_state}
use mongoose_cpp.Http.Producer.Chunks.{Starts, start-Phase, step_keeps, steps_keep}
use mongoose_cpp.Http.Producer.Cases.{Idle-of, Flying-of, Ending-of, Ended-of}

-- A connection on whose write events there is room.
abbrev pub HasRoom : Env → Connection → Type 0
HasRoom env c =
    (p : IsPromoted c) × (p.remote.stream ≡ none) × (env.send_len_after c.send_len [] < env.io_size)

steps_append :
    {env : Env} {conn id ref : ℕ} {r t u : Run}
    → Steps env conn id ref r t
    → Steps env conn id ref t u
    → Steps env conn id ref r u
steps_append first here = first
steps_append first (next path s) = next (steps_append first path) s

pump_idle :
    (io_size conn len : ℕ) (c : RemoteContext)
    → c.stream ≡ none
    → (pump_stream io_size conn len c).0 ≡ []
unfolding pump_stream
pump_idle io_size conn len c h = rw h

module _ (env : Env) (conn id ref : ℕ) (base : List MgCall) (chunks : List Bytes) where
  -- A run that can be brought to its end.
  abbrev Finishes : Run → Type 0
  Finishes r = (u : Run) × Steps env conn id ref r u × Ended conn ref base chunks u

  after_step : (r t : Run) → Step env conn id ref r t → Finishes t → Finishes r
  after_step r t s (u, path, e) = (u, steps_append (next here s) path, e)

  -- The wake-up of a closed stream.
  finish-Ending : (r : Run) → Inv r.system → Ending conn id ref base chunks r → Finishes r
  finish-Ending r v f =
      let (streams, e) =
        wakeup_in_state conn id ref f.stream StreamState.close r.system f.pending f.at f.state in
      let s = wakes 0 _ f.posted e in
      after_step r _ s (_, here, Ended-of _ (step_keeps s v (ending f)).1 f.done refl)

  -- The wake-up of a chunk, and whatever finishes a run with the chunks behind it.
  finish-Flying :
      (left : List Bytes)
      → ((t : Run) → Inv t.system → Idle conn id ref base chunks t → t.todo ≡ left → Finishes t)
      → (r : Run) → Inv r.system
      → Flying conn id ref base chunks r
      → r.todo ≡ left
      → Finishes r
  finish-Flying left finish r v f todo =
      let (streams, e) =
        wakeup_in_state conn id ref f.stream StreamState.has_data r.system f.pending f.at f.state in
      let s = wakes 0 _ f.posted e in
      let (w, p) = step_keeps s v (flying f) in
      after_step r _ s (finish _ w (Idle-of _ p f.in_loop refl) todo)

  -- The turn of a thread whose stream is empty.
  empty_turn :
      (left : List Bytes) (r : Run) (i : Idle conn id ref base chunks r)
      → i.stream.state ≡ StreamState.empty
      → r.todo ≡ left
      → produce ref r ≡ produce_next ref left r
  unfolding after_wait AsyncStream.wait
  empty_turn left r i st todo =
      produce_at ref r i.stream i.in_loop i.at
      ∙ ap (λ z. after_wait ref (AsyncStream.wait (z ∷ [])) r) st
      ∙ ap (λ l. produce_next ref l r) todo

  turned :
      (left : List Bytes) (r : Run) (i : Idle conn id ref base chunks r)
      → i.stream.state ≡ StreamState.empty
      → r.todo ≡ left
      → Inv r.system
      → Step env conn id ref r (produce_next ref left r)
        × Inv (produce_next ref left r).system
        × Phase conn id ref base chunks (produce_next ref left r)
  turned left r i st todo v =
      let e = empty_turn left r i st todo in
      let (w, p) = step_keeps {env = env} {conn = conn} {id = id} {ref = ref} produces v (idle i) in
      (
        subst (Step env conn id ref r) e produces,
        subst (λ t. Inv t.system) e w,
        subst (Phase conn id ref base chunks) e p,
      )

  -- A write event empties the stream.
  emptied :
      (w : Connection) (r : Run)
      → HasRoom env w
      → Inv r.system
      → Idle conn id ref base chunks r
      → (s : System) × Step env conn id ref r (record r { system = s })
        × Inv s
        × ((i : Idle conn id ref base chunks (record r { system = s })) × (i.stream.state
              ≡ StreamState.empty))
  emptied w r (m, quiet, room) v i =
      let (served, e, (k, x, same, at, st)) =
        write_empties_all env w m.remote r.system conn id (some ref) m.held v
          (subst (λ calls. env.send_len_after w.send_len calls < env.io_size)
            (sym (pump_idle env.io_size w.id w.send_len m.remote quiet)) room)
          i.pending (ref, i.stream, refl, i.at, i.state) in
      let s : Step env conn id ref r (record r { system = served.1 }) = writes w m served quiet e in
      let (u, p) = step_keeps s v (idle i) in
      let j = Idle-of _ p i.in_loop i.quiet in
      let here_at : get_elem? served.1.streams ref ≡ some x =
        ap (get_elem? served.1.streams) (ref_eq k same) ∙ at in
      (served.1, s, u, (j, ap (λ z. z.state) (stream_eq j.stream x (sym j.at ∙ here_at)) ∙ st))
    where
      ref_eq : (k : ℕ) → some ref ≡ some k → ref ≡ k
      ref_eq k e = cc e

      stream_eq : (y z : AsyncStream) → some y ≡ some z → y ≡ z
      stream_eq y z e = cc e

  pub finish-Idle :
      (w : Connection) (left : List Bytes) (r : Run)
      → HasRoom env w
      → Inv r.system
      → Idle conn id ref base chunks r
      → r.todo ≡ left
      → Finishes r
  unfolding produce_next
  finish-Idle w [] r room v i todo =
      let (s, step, u, (j, st)) = emptied w r room v i in
      let t = record r { system = s } in
      let (turn, inv, p) = turned [] t j st todo u in
      after_step r t step
        (after_step t _ turn (finish-Ending _ inv (Ending-of _ p refl (ap suc i.quiet))))
  finish-Idle w (chunk ∷ rest) r room v i todo =
      let (s, step, u, (j, st)) = emptied w r room v i in
      let t = record r { system = s } in
      let (turn, inv, p) = turned (chunk ∷ rest) t j st todo u in
      after_step r t step (
        after_step t _ turn (
          finish-Flying rest (λ t v i e. finish-Idle w rest t room v i e) _ inv
            (Flying-of _ p i.in_loop (ap suc i.quiet)) refl))

  finish :
      (w : Connection) (r : Run)
      → HasRoom env w
      → Inv r.system
      → Phase conn id ref base chunks r
      → Finishes r
  finish w r room v (idle i) = finish-Idle w r.todo r room v i refl
  finish w r room v (flying f) =
      finish-Flying r.todo (λ t v i e. finish-Idle w r.todo t room v i e) r v f refl
  finish w r room v (ending f) = finish-Ending r v f
  finish w r room v (ended f) = (r, here, f)

-- Where a thread has a flushed or empty stream that is pending, and there is a connection on whose
-- write events there is room, any order of steps of its loop, its wake-ups and write events can be
-- continued to one behind which all its chunks are written, in their order and each once, with the
-- chunk that ends the answer behind them, the stream is completed and the thread has left its loop.
pub producer_finishes :
    (env : Env) (conn id ref : ℕ) (w : Connection) (r t : Run)
    → HasRoom env w
    → Starts conn id ref r
    → Steps env conn id ref r t
    → (u : Run) × Steps env conn id ref t u
      × (u.system.calls ≡ r.system.calls ++ whole conn r.todo)
      × (u.is_done ≡ true)
      × ((x : AsyncStream) × (get_elem? u.system.streams ref ≡ some x)
          × (x.state ≡ StreamState.completed))
producer_finishes env conn id ref w r t room s path =
    let (v, p) = steps_keep path s.0 (start-Phase conn id ref r s) in
    let (u, rest, e) = finish env conn id ref r.system.calls r.todo w t room v p in
    (u, rest, e.calls, e.done, (e.stream, e.at, e.state))
