-- ===== src/Http/AsyncResponse/Laws.antt =====
-- One asynchronous response on its own: what each call leaves behind.
use mongoose_cpp.Prelude.{◌≡◌, false, List, [], none, Bytes, ℤ}
use mongoose_cpp.Table.Order.{Order}
use mongoose_cpp.Mongoose.{Wakeup}
use mongoose_cpp.Http.Headers.{Entry}
use mongoose_cpp.Http.AsyncResponse
use mongoose_cpp.Http.AsyncResponse.{AsyncResponse, stream as stream_response}
use mongoose_cpp.Http.AsyncResponse.State.{is_pending}

-- A response that has left `pending` takes no answer any more: neither call changes it, makes a
-- stream or wakes the event loop.
pub settled_ignores :
    (o : Order Entry) (r : AsyncResponse) (answer : Wakeup)
    → is_pending r.state ≡ false
    → ((code : ℤ) (body : Bytes) → AsyncResponse.send o r code body answer ≡ (r, []))
      × ((streams : List _) (code : ℤ) (encoding : Bytes)
          → stream_response o r streams code encoding answer
            ≡ record { response = r; streams = streams; result = none; signals = [] })
unfolding AsyncResponse.send stream_response
settled_ignores o r answer h = (λ code body. rw h, λ streams code encoding. rw h)
