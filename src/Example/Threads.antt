-- ===== src/Example/Threads.antt =====
-- The asynchronous handlers of examples/simple/src/main.cpp: each starts a thread and returns, and the
-- thread answers later from its copy of the request. `mem` is the memory when it does, and `answer`
-- what its wake-up meets. The thread of /async/file is the producer of Http.Producer, over the chunks
-- of Example.File.
use mongoose_cpp.Prelude.{
  ℕ, zero, suc, ◌+◌, ◌-◌, ◌*◌, ◌%◌, ◌^◌, ◌==◌, ◌&&◌, Bool, List, [], ◌∷◌, ◌++◌, Option, none, some,
  Bytes, codes, decimal, ltb, leb, if◌then◌else◌, ℤ, pos, negsuc,
}
use mongoose_cpp.Mongoose.{Wakeup}
use mongoose_cpp.Http.AsyncRequest
use mongoose_cpp.Http.AsyncRequest.{AsyncRequest, MgStr, Certs, lock}
use mongoose_cpp.Http.AsyncRequest.Views.{text}
use mongoose_cpp.Http.Endpoint.State.{AsyncAction, header, send, stream}
use mongoose_cpp.Http.Headers.Laws.{setting}
use mongoose_cpp.Http.Request.{Request}
use mongoose_cpp.Http.Status.{value, ok, bad_request, internal_server_error}
use mongoose_cpp.Example.Handlers.{cert_text, who_text}

-- What each of the four handlers does itself, beside starting its thread.
unfoldable pub detach : Request → List AsyncAction
detach req = []

-- `certs` are the certificates that are owned when the thread locks its pointer.
unfoldable pub cert_thread : Certs → AsyncRequest → Wakeup → AsyncAction
unfolding AsyncRequest.get_tls_cert_info lock
cert_thread certs req answer = elim (lock certs (AsyncRequest.get_tls_cert_info req)) [
  | some info ↦ send (value ok) (cert_text info) answer
  | none ↦ send (value bad_request) (codes "No client certificate provided") answer
]

unfoldable pub who_thread : AsyncRequest → Wakeup → AsyncAction
unfolding AsyncRequest.get_remote_ip
who_thread req answer = send (value ok) (who_text (AsyncRequest.get_remote_ip req)) answer

-- The thread of /async/file up to its loop; `is_open` says whether the file could be opened.
unfoldable pub file_thread : Bool → Wakeup → List AsyncAction
file_thread is_open answer =
    if is_open
    then header (setting (codes "Content-Type") (codes "text/plain"))
      ∷ stream (value ok) (codes "chunked") answer
      ∷ []
    else send (value internal_server_error) (codes "Failed to open file") answer ∷ []

abbrev is_digit : ℕ → Bool
is_digit c = leb b'0' c && leb c b'9'

-- `std::from_chars` on the digits: the number that the longest run of them has, if there is one.
unfoldable pub from_digits : Option ℕ → Bytes → Option ℕ
from_digits read [] = read
from_digits read (c ∷ s) =
    let longer = from_digits (some (elim read [ none ↦ 0 | some n ↦ n ] * 10 + (c - b'0'))) s in
    if is_digit c then longer else read

-- A value outside of `int` is an error of `std::from_chars` too.
abbrev to_positive : Option ℕ → Option ℤ
to_positive none = none
to_positive (some n) = if ltb n (2 ^ 31) then some (pos n) else none

abbrev to_negative : Option ℕ → Option ℤ
to_negative none = none
to_negative (some zero) = some (pos 0)
to_negative (some (suc n)) = if ltb n (2 ^ 31) then some (negsuc n) else none

unfoldable pub to_int : Bytes → Option ℤ
unfolding from_digits
to_int [] = none
to_int (c ∷ s) =
    if c == b'-' then to_negative (from_digits none s) else to_positive (from_digits none (c ∷ s))

abbrev shown_or : (ℕ → ℕ) → Option MgStr → Bytes → Bytes
shown_or mem none default = default
shown_or mem (some view) default = text mem view

-- How many seconds the thread of /async/? sleeps.
unfoldable pub seconds : (ℕ → ℕ) → AsyncRequest → ℤ
unfolding to_int AsyncRequest.get_param
seconds mem req = elim (to_int (shown_or mem (AsyncRequest.get_param req 0) (codes "5"))) [
  | none ↦ pos 5
  | some n ↦ n
]

-- Its answer, and the counter, which `fetch_add` raises.
unfoldable pub counting_thread : (ℕ → ℕ) → ℕ → AsyncRequest → Wakeup → AsyncAction × ℕ
unfolding AsyncRequest.method
counting_thread mem counter req answer = (
  send (value ok)
      (codes "I'm an async "
        ++ text mem (AsyncRequest.method req)
        ++ codes " callback ("
        ++ decimal counter
        ++ codes " calls).")
      answer,
  (counter + 1) % 2 ^ 64,
)
