-- ===== src/Http/Safety/Message.antt =====
-- A request is routed and handled without a bad pointer and without writing past the vector of
-- captures.

use mongoose_cpp.Prelude.{
  ℕ, ◌+◌, ◌≤◌, ◌≡◌, refl, ◌∙◌, ap, List, [], ◌∷◌, ◌++◌, Option, none, some, Bytes, arith, length,
  All, lt→ltb, Option-cases, inl, inr, get_elem?-append_end,
}
use mongoose_cpp.Table.Keys.{nat_key}
use mongoose_cpp.Table.Order.{All-visit}
use mongoose_cpp.Table.Laws.{assign-IsUnique}
use mongoose_cpp.Mongoose.{Outcome, ok, ◌>>=◌}
use mongoose_cpp.Http.AsyncResponse
use mongoose_cpp.Http.AsyncResponse.{AsyncResponse}
use mongoose_cpp.Http.Connection.{Connection, RemoteContext, context, event_manager_context_handler}
use mongoose_cpp.Http.Request
use mongoose_cpp.Http.Request.{Request, Message}
use mongoose_cpp.Http.Response
use mongoose_cpp.Http.Response.{Run, Action, act_all}
use mongoose_cpp.Http.Response.Laws.{first_answer_only, first_producer}
use mongoose_cpp.Http.Endpoint.State.{System, Env, Listener, Callback, sync, async, Asset}
use mongoose_cpp.Http.Endpoint.Register.{count_groups}
use mongoose_cpp.Http.Endpoint.Message.{
  match_listener, context_of, add_response, invoke, serve_fallback, serve_unlistened,
  serve_listener, serve_matched, handle_http_message, fill,
}
use mongoose_cpp.Http.Safety.Valid.{ValidResponse, Keeps-refl, ValidResponse-append}
use mongoose_cpp.Http.Safety.Maps.{InnerUnique-assign_at, AllAt-assign_at}
use mongoose_cpp.Http.Safety.Inv.{Inv, IsCounted, Inv-store}
use mongoose_cpp.Http.Safety.Users.{user_actions-Inv}
use mongoose_cpp.Http.Safety.Serving.{emit-Inv}

-- What mongoose documents of `mg_match`: it captures one group at most for each `?`, `*` and `#` of the
-- pattern.
abbrev pub CapturesFit : Env → Type 0
CapturesFit env =
    (uri pattern' : Bytes) (captures : List Bytes)
    → env.mg_match uri pattern' ≡ some captures
    → length captures ≤ count_groups pattern'

-- The connection has its context, and its events go there.
pub record IsPromoted (conn : Connection) : Type 0 where
  pub remote : RemoteContext
  pub held : conn.fn_data ≡ context remote
  pub handler : conn.fn ≡ event_manager_context_handler
  pub marked : conn.tag ≡ b'R'

-- The step returns, the invariant holds, and the connection keeps its context.
abbrev pub SafeEvent : Outcome (Connection × System) → Type 0
SafeEvent m = (r : Connection × System) × (m ≡ ok r) × IsPromoted r.0 × Inv r.1

pub context_of_lem :
    (conn : Connection) (c : RemoteContext) → conn.fn_data ≡ context c → context_of conn ≡ ok c
unfolding context_of
context_of_lem conn c h = rw (h, context_of)

add_response-Inv : (conn : ℕ) (s : System) → Inv s → Inv (add_response conn s)
unfolding add_response AsyncResponse.new
add_response-Inv conn s v =
    let grown =
      Inv-store s (s.responses ++ AsyncResponse.new conn s.request_counter ∷ []) s.streams s.calls
        s.signals v (Keeps-refl s.streams)
        (λ ref c i. ValidResponse-append s.responses _ s.streams ref c i) in
    record {
      responses_keys = assign-IsUnique nat_key conn _ s.pending_responses v.responses_keys;
      streams_keys = v.streams_keys;
      responses_unique =
          InnerUnique-assign_at conn s.request_counter (length s.responses) s.pending_responses
            v.responses_unique;
      streams_unique = v.streams_unique;
      responses_valid =
          AllAt-assign_at
            (λ c i x.
              ValidResponse (s.responses ++ AsyncResponse.new conn s.request_counter ∷ []) s.streams
                x c i)
            conn s.request_counter (length s.responses) s.pending_responses
            (_, get_elem?-append_end s.responses _, refl, refl, λ st. cc) grown.responses_valid;
      streams_valid = v.streams_valid;
      groups_counted = v.groups_counted;
    }

invoke-Inv :
    (env : Env) (conn : Connection) (callback : Callback) (request : Request) (s : System)
    → IsPromoted conn
    → Inv s
    → SafeEvent (invoke env conn callback request s)
unfolding invoke Response.new
invoke-Inv env conn (sync callback) request s p v =
    let (r, e, calls, kept) =
      first_answer_only env.header_order
        (record { response = Response.new; conn = conn; calls = s.calls }) p.remote
        (callback request) refl p.held in
    (
      (r.conn, record s { calls = r.calls }),
      ap (λ m. m >>= λ x. ok (x.conn, record s { calls = x.calls })) e,
      record {
        remote = first_producer p.remote (callback request);
        held = ap (λ z. z.fn_data) kept;
        handler = ap (λ z. z.fn) kept ∙ p.handler;
        marked = ap (λ z. z.tag) kept ∙ p.marked;
      },
      Inv-store s s.responses s.streams r.calls s.signals v (Keeps-refl s.streams) (λ ref c i h. h),
    )
invoke-Inv env conn (async callback) request s p v = (
  (conn, _),
  refl,
  p,
  user_actions-Inv env _ (length s.responses) (callback request) (add_response-Inv conn.id s v),
)

serve_fallback-Inv :
    (env : Env) (conn : Connection) (msg : Message) (fallback : Option Listener) (s : System)
    → IsPromoted conn
    → Inv s
    → SafeEvent (serve_fallback env conn msg fallback s)
unfolding serve_fallback
serve_fallback-Inv env conn msg none s p v = ((conn, _), refl, p, emit-Inv s _ v)
serve_fallback-Inv env conn msg (some listener) s p v =
    rw (context_of_lem conn p.remote p.held)
      (invoke-Inv env conn listener.callback (Request.new msg p.remote []) s p v)

serve_unlistened-Inv :
    (env : Env) (conn : Connection) (msg : Message) (asset : Option (Bytes × Asset)) (s : System)
    → IsPromoted conn
    → Inv s
    → SafeEvent (serve_unlistened env conn msg asset s)
unfolding serve_unlistened
serve_unlistened-Inv env conn msg none s p v = serve_fallback-Inv env conn msg s.fallback s p v
serve_unlistened-Inv env conn msg (some (path, asset)) s p v = ((conn, _), refl, p, emit-Inv s _ v)

serve_listener-Inv :
    (env : Env) (conn : Connection) (msg : Message) (listener : Listener) (captures : List Bytes)
    (s : System)
    → length captures ≤ listener.groups
    → IsPromoted conn
    → Inv s
    → SafeEvent (serve_listener env conn msg listener captures s)
unfolding serve_listener
serve_listener-Inv env conn msg listener captures s fit p v =
    rw (lt→ltb (length captures) (listener.groups + 1) (omega arith)) (
      rw (context_of_lem conn p.remote p.held) (
        invoke-Inv env conn listener.callback
          (Request.new msg p.remote (fill (listener.groups + 1) captures)) s p v))

-- A listener that matches has room for the captures of the match.
match_listener-fits :
    (env : Env) (uri : Bytes) (ls : List (Bytes × Listener)) {l : Listener} {captures : List Bytes}
    → CapturesFit env
    → All IsCounted ls
    → match_listener env uri ls ≡ some (l, captures)
    → length captures ≤ l.groups
unfolding match_listener
match_listener-fits env uri [] fit counted e = ground arith
match_listener-fits env uri ((path, listener) ∷ rest) {l} {captures} fit counted e =
    elim (Option-cases (env.mg_match uri path)) [
      | inl none_here ↦
          match_listener-fits env uri rest fit counted.1 (rw (none_here, match_listener) at e)
      | inr (found, here) ↦
          let same = rw (here, match_listener) at e in
          ground (arith, fit uri path found here, counted.0, same)
    ]

serve_matched-Inv :
    (env : Env) (conn : Connection) (msg : Message) (s : System)
    (m : Option (Listener × List Bytes))
    → ((l : Listener) (captures : List Bytes) → m ≡ some (l, captures) → length captures ≤ l.groups)
    → IsPromoted conn
    → Inv s
    → SafeEvent (serve_matched env conn msg m s)
unfolding serve_matched
serve_matched-Inv env conn msg s none fit p v = serve_unlistened-Inv env conn msg _ s p v
serve_matched-Inv env conn msg s (some (l, captures)) fit p v =
    serve_listener-Inv env conn msg l captures s (fit l captures refl) p v

-- A request on a connection with a context is served, whatever its handler calls: no pointer is bad
-- and the captures of the match fit the vector that was made for them.
pub handle_http_message-Inv :
    (env : Env) (conn : Connection) (msg : Message) (s : System)
    → CapturesFit env
    → IsPromoted conn
    → Inv s
    → SafeEvent (handle_http_message env conn msg s)
unfolding handle_http_message
handle_http_message-Inv env conn msg s fit p v =
    serve_matched-Inv env conn msg s _
      (λ l captures e.
        match_listener-fits env msg.uri _ fit
          (All-visit IsCounted env.listener_order s.listeners v.groups_counted) e)
      p v
