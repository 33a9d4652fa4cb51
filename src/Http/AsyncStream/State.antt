-- ===== src/Http/AsyncStream/State.antt =====
-- The states of an asynchronous stream: enum state of include/mgxx/http/async_stream.hpp.
use mongoose_cpp.Prelude.{Bool, true, false}

pub data StreamState : Type 0 where
  start has_data flush empty close completed failed : StreamState

pub StreamState-discrete : Discrete StreamState
StreamState-discrete = hlevel

abbrev pub is_flush : StreamState → Bool
is_flush flush = true
is_flush _ = false

abbrev pub is_failed : StreamState → Bool
is_failed failed = true
is_failed _ = false
