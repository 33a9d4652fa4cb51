-- ===== src/Server/Lifecycle.antt =====
-- Making and starting the server, listening, polling and stopping. `mg_wakeup_init` and
-- `mg_http_listen` are mongoose's, so their answers are arguments.
use mongoose_cpp.Prelude.{ℕ, Bool, List, [], ◌∷◌, ◌++◌, Option, none, some, Bytes, ℤ, if◌then◌else◌}
use mongoose_cpp.Server.Logger.{Logger, register_logger}
use mongoose_cpp.Http.Connection.{Connection, FnData, event_manager_handler}
use mongoose_cpp.Http.Endpoint.State.{Endpoint, new}

-- The base class's part of an endpoint, with the HTTP part.
pub record Listening : Type 0 where
  pub host : Bytes
  pub conn : Option Connection
  pub endpoint : Endpoint

pub record Server : Type 0 where
  pub wakeup : Bool
  pub endpoints : List Listening

-- `start`, by what `mg_wakeup_init` returned.
unfoldable pub start : Bool → Server
start answer = record { wakeup = answer; endpoints = [] }

unfoldable pub is_async : Server → Bool
is_async s = s.wakeup

-- `endpoint::setup`.
unfoldable pub setup : Listening → Connection → Listening
setup e conn = record e { conn = some (record conn { tag = b'E' }) }

-- `mg_http_listen` gives the new connection the handler and the endpoint, or returns null.
unfoldable pub listen_http : Server → Bytes → Option Connection → Server × Option Listening
unfolding setup
listen_http s host none = (s, none)
listen_http s host (some conn) =
    let listening =
      setup (record { host = host; conn = none; endpoint = new })
        (record conn { fn = event_manager_handler; fn_data = FnData.endpoint }) in
    (record s { endpoints = s.endpoints ++ listening ∷ [] }, some listening)

-- The calls that act on the manager or on the log.
pub data MgrCall : Type 0 where
  log_set : (level : ℤ) → MgrCall
  log_set_fn mgr_init wakeup_init mgr_free psa_crypto_free : MgrCall
  mgr_poll : (ms : ℤ) → MgrCall

-- The three constructors: without arguments, with a level, and with a listener for the log, whose
-- buffer has a size.
pub data Constructor : Type 0 where
  plain : Constructor
  with_level : ℤ → Constructor
  with_listener : ℤ → ℕ → Constructor

-- The server, its logger, and the calls made.
pub record Constructed : Type 0 where
  pub server : Server
  pub logger : Logger
  pub calls : List MgrCall

abbrev start_calls : List MgrCall
start_calls = mgr_init ∷ wakeup_init ∷ []

abbrev no_logger : Logger
no_logger = record { buffer = []; offset = 0; messages = [] }

unfoldable pub construct : Constructor → Bool → Constructed
unfolding start register_logger
construct plain answer = record { server = start answer; logger = no_logger; calls = start_calls }
construct (with_level level) answer = record {
  server = start answer;
  logger = no_logger;
  calls = log_set level ∷ start_calls;
}
construct (with_listener level size) answer = record {
  server = start answer;
  logger = register_logger size;
  calls = log_set_fn ∷ log_set level ∷ start_calls;
}

unfoldable pub poll : ℤ → List MgrCall
poll ms = mgr_poll ms ∷ []

-- `has_psa` says whether the build is one with mbedTLS 3 and its PSA cryptography.
unfoldable pub stop : Bool → List MgrCall
stop has_psa = mgr_free ∷ (if has_psa then psa_crypto_free ∷ [] else [])
