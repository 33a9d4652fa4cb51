-- ===== src/Http/Endpoint/Message.antt =====
-- A request from its arrival to its handler: handle_http_message of src/http/endpoint.cpp.
pub mod Routing
pub mod Overlap
pub mod Answered
use mongoose_cpp.Prelude.{
  ◌+◌, ◌-◌, ◌%◌, ◌^◌, ℕ, zero, suc, List, [], ◌∷◌, ◌++◌, Option, none, some, Bytes, c_str, length,
  take, if◌then◌else◌, ltb,
}
use mongoose_cpp.Mongoose.{
  MgCall, http_serve_dir, http_serve_file, ServeOpts, Outcome, ok, fault, bad_cast, overrun, ◌>>=◌,
}
use mongoose_cpp.Http.AsyncResponse
use mongoose_cpp.Http.Connection.{Connection, FnData, RemoteContext}
use mongoose_cpp.Http.Headers.{is_empty}
use mongoose_cpp.Http.Request
use mongoose_cpp.Http.Request.{Request, Message}
use mongoose_cpp.Http.Response
use mongoose_cpp.Http.Response.{Run, Action}
use mongoose_cpp.Http.Endpoint.State.{
  System, Env, Listener, Callback, sync, async, Asset, emit, user_actions,
}
use mongoose_cpp.Http.Endpoint.Wakeup.{assign_at, not_found_reply}

-- `mg_match` writes the captures and one empty entry behind them into `groups`, whose other entries
-- stay empty.
abbrev pub fill : ℕ → List Bytes → List Bytes
fill zero captures = []
fill (suc room) [] = [] ∷ fill room []
fill (suc room) (c ∷ captures) = c ∷ fill room captures

-- The first listener in the order of iteration whose path matches, with the captures.
unfoldable pub match_listener :
    Env → Bytes → List (Bytes × Listener) → Option (Listener × List Bytes)
match_listener env uri [] = none
match_listener env uri ((path, listener) ∷ rest) = elim (env.mg_match uri path) [
  | some captures ↦ some (listener, captures)
  | none ↦ match_listener env uri rest
]

unfoldable pub match_asset : Env → Bytes → List (Bytes × Asset) → Option (Bytes × Asset)
match_asset env uri [] = none
match_asset env uri ((path, asset) ∷ rest) = elim (env.mg_match uri path) [
  | some captures ↦ some (path, asset)
  | none ↦ match_asset env uri rest
]

-- `*context` where the request is built.
unfoldable pub context_of : Connection → Outcome RemoteContext
context_of conn = elim conn.fn_data [ FnData.context c ↦ ok c | _ ↦ fault bad_cast ]

-- A fresh response under the next number, pending on the connection.
unfoldable pub add_response : ℕ → System → System
add_response conn s = record s {
  endpoint = record s.endpoint {
    request_counter = (s.request_counter + 1) % 2 ^ 64;
    pending_responses = assign_at conn s.request_counter (length s.responses) s.pending_responses;
  };
  responses = s.responses ++ AsyncResponse.new conn s.request_counter ∷ [];
}

-- `invoke`: the two kinds of listener.
unfoldable pub invoke :
    Env → Connection → Callback → Request → System → Outcome (Connection × System)
unfolding add_response
invoke env conn (sync callback) request s = do
  r ←
      Response.act_all env.header_order
        (record { response = Response.new; conn = conn; calls = s.calls }) (callback request)
  ok (r.conn, record s { calls = r.calls })
invoke env conn (async callback) request s =
    ok (conn, user_actions env (add_response conn.id s) (length s.responses) (callback request))

-- `path.substr(0, path.size() - 2)`, where the size is a `size_t`.
unfoldable pub mount_point : Bytes → Bytes
mount_point path = take ((length path + 2 ^ 64 - 2) % 2 ^ 64) path

abbrev pub pointer_to : Bytes → Option Bytes
pointer_to text = if is_empty text then none else some (c_str text)

unfoldable pub serve_asset : ℕ → Bytes → Asset → MgCall
unfolding mount_point
serve_asset conn path asset =
    if asset.is_dir
    then http_serve_dir conn (opts (some (c_str (mount_point path ++ b'=' ∷ asset.path))))
    else http_serve_file conn (c_str asset.path) (opts none)
  where
    opts : Option Bytes → ServeOpts
    opts root_dir = record {
      root_dir = root_dir;
      extra_headers = pointer_to asset.headers;
      mime_types = pointer_to asset.mime_type;
    }

unfoldable pub serve_fallback :
    Env → Connection → Message → Option Listener → System → Outcome (Connection × System)
unfolding invoke context_of
serve_fallback env conn msg none s = ok (conn, emit s (not_found_reply conn.id))
serve_fallback env conn msg (some listener) s = do
  context ← context_of conn
  invoke env conn listener.callback (Request.new msg context []) s

unfoldable pub serve_unlistened :
    Env → Connection → Message → Option (Bytes × Asset) → System → Outcome (Connection × System)
unfolding serve_fallback serve_asset
serve_unlistened env conn msg (some (path, asset)) s =
    ok (conn, emit s (serve_asset conn.id path asset))
serve_unlistened env conn msg none s = serve_fallback env conn msg s.fallback s

-- The vector `groups` has one entry more than the listener has groups.
unfoldable pub serve_listener :
    Env → Connection → Message → Listener → List Bytes → System → Outcome (Connection × System)
unfolding invoke context_of
serve_listener env conn msg listener captures s =
    if ltb (length captures) (listener.groups + 1)
    then (do
      context ← context_of conn
      invoke env conn listener.callback
          (Request.new msg context (fill (listener.groups + 1) captures)) s)
    else fault overrun

unfoldable pub serve_matched :
    Env
    → Connection
    → Message
    → Option (Listener × List Bytes)
    → System
    → Outcome (Connection × System)
unfolding serve_listener serve_unlistened
serve_matched env conn msg (some (listener, captures)) s =
    serve_listener env conn msg listener captures s
serve_matched env conn msg none s =
    serve_unlistened env conn msg (match_asset env msg.uri (env.asset_order.visit s.assets)) s

unfoldable pub handle_http_message :
    Env → Connection → Message → System → Outcome (Connection × System)
unfolding serve_matched
handle_http_message env conn msg s =
    serve_matched env conn msg (match_listener env msg.uri (env.listener_order.visit s.listeners)) s
