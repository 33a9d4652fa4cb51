-- ===== src/Http/AsyncResponse/State.antt =====
-- The states of an asynchronous response: enum state of include/mgxx/http/async_response.hpp.
use mongoose_cpp.Prelude.{Bool, true, false}

pub data ResponseState : Type 0 where
  pending sending streaming completed failed : ResponseState

abbrev pub is_pending : ResponseState → Bool
is_pending pending = true
is_pending _ = false

abbrev pub is_streaming : ResponseState → Bool
is_streaming streaming = true
is_streaming _ = false

abbrev pub is_failed : ResponseState → Bool
is_failed failed = true
is_failed _ = false
