-- ===== src/Http/Producer.antt =====
-- A thread that produces an asynchronous stream, with the event loop that sends it: the loop over
-- wait, send and close of the handler of /async/file in examples/simple/src/main.cpp, over chunks that
-- it has read, and the event loop's part of it in src/http/endpoint.cpp.
pub mod Pumping
pub mod Phases
pub mod Loop
pub mod Chunks
pub mod Cases
pub mod Finish
pub mod Answer
pub mod World
use mongoose_cpp.Prelude.{
  ℕ, suc, ◌≡◌, Bool, true, false, List, [], ◌∷◌, Option, none, some, Bytes, get_elem?,
}
use mongoose_cpp.Mongoose.{posted, ok}
use mongoose_cpp.Http.AsyncStream
use mongoose_cpp.Http.AsyncStream.{AsyncStream}
use mongoose_cpp.Http.Connection.{Connection}
use mongoose_cpp.Http.Endpoint.State.{System, Env, stream_send, stream_close}
use mongoose_cpp.Http.Endpoint.Events.{handle_write}
use mongoose_cpp.Http.Endpoint.Wakeup.{handle_wakeup}
use mongoose_cpp.Http.Safety.Message.{IsPromoted}

-- The chunks that are not sent yet, whether the thread has left its loop, and how many of its wake-ups
-- are on their way.
pub record Run : Type 0 where
  pub system : System
  pub todo : List Bytes
  pub is_done : Bool
  pub inbox : ℕ

-- The body of the loop, where its wake-up is posted.
unfoldable pub produce_next : ℕ → List Bytes → Run → Run
produce_next ref [] r = record r {
  system = stream_close r.system ref posted;
  is_done = true;
  inbox = suc r.inbox;
}
produce_next ref (chunk ∷ rest) r = record r {
  system = stream_send r.system ref chunk posted;
  todo = rest;
  inbox = suc r.inbox;
}

-- By what `wait` returns, if it does.
unfoldable pub after_wait : ℕ → Option Bool → Run → Run
unfolding produce_next
after_wait ref none r = r
after_wait ref (some false) r = record r { is_done = true }
after_wait ref (some true) r = produce_next ref r.todo r

-- One turn of a thread whose `wait` sees the present state of its stream; one that has left its loop
-- has none.
unfoldable pub turn : ℕ → Bool → Option AsyncStream → Run → Run
unfolding after_wait
turn ref true stream r = r
turn ref false none r = r
turn ref false (some x) r = after_wait ref (AsyncStream.wait (x.state ∷ [])) r

unfoldable pub produce : ℕ → Run → Run
unfolding turn
produce ref r = turn ref r.is_done (get_elem? r.system.streams ref) r

-- A turn of the thread; a wake-up that arrives; a write event of any connection that has its context
-- and streams nothing else.
pub data Step (env : Env) (conn id ref : ℕ) (r : Run) : Run → Type 0 where
  produces : Step env conn id ref r (produce ref r)
  wakes :
      (n : ℕ) (s : System)
      → r.inbox ≡ suc n
      → handle_wakeup conn id r.system ≡ ok s
      → Step env conn id ref r (record r { system = s; inbox = n })
  writes :
      (c : Connection) (p : IsPromoted c) (served : Connection × System)
      → p.remote.stream ≡ none
      → handle_write env c r.system ≡ ok served
      → Step env conn id ref r (record r { system = served.1 })

pub data Steps (env : Env) (conn id ref : ℕ) (r : Run) : Run → Type 0 where
  here : Steps env conn id ref r r
  next :
      {t u : Run} → Steps env conn id ref r t → Step env conn id ref t u → Steps env conn id ref r u
