-- ===== src/Example/Handlers.antt =====
-- The synchronous handlers of examples/simple/src/main.cpp. What a handler captures by reference is an
-- argument in front: the counter of /lambda, and the file that /file opens.
use mongoose_cpp.Prelude.{
  ℕ, ◌+◌, ◌%◌, ◌^◌, List, [], ◌∷◌, ◌++◌, Option, none, some, Bytes, codes, decimal,
}
use mongoose_cpp.Http.Headers.{Headers, get_view, set}
use mongoose_cpp.Http.Headers.Laws.{setting}
use mongoose_cpp.Http.Status.{value, ok, im_a_teapot, not_found, bad_request, internal_server_error}
use mongoose_cpp.Http.Certificate.{TlsCertInfo, show_slice}
use mongoose_cpp.Http.Request.{Request, get_remote_ip, get_tls_cert_info, get_param}
use mongoose_cpp.Http.Response.{Action, header, send, stream}
use mongoose_cpp.Example.File.{opened, file_producer}

-- The end of a line.
abbrev newline : Bytes
newline = 10 ∷ []

-- `value_or`.
abbrev pub value_or : Option Bytes → Bytes → Bytes
value_or none default = default
value_or (some text) default = text

unfoldable pub simple_handler : Request → List Action
simple_handler req =
    send (value im_a_teapot) (codes "What starts with T, ends with T, but only has T in?") ∷ []

-- `example`, by its member `trick`.
unfoldable pub simple : ℕ → Request → List Action
simple trick req = send (value ok) (codes "I'm a class member callback: " ++ decimal trick) ∷ []

-- `++counter` on a `uint64_t`: what it leaves, and the calls of the handler.
unfoldable pub count_up : ℕ → ℕ
count_up counter = (counter + 1) % 2 ^ 64

unfoldable pub lambda_handler : ℕ → Request → List Action
unfolding count_up
lambda_handler counter req =
    send (value ok)
      (codes "I'm a lambda callback (" ++ decimal (count_up counter) ++ codes " calls).")
    ∷ []

unfoldable pub who_text : Bytes → Bytes
who_text ip = codes "You are " ++ ip ++ codes "!"

unfoldable pub who : Request → List Action
unfolding who_text get_remote_ip
who req = send (value ok) (who_text (get_remote_ip req)) ∷ []

-- The body of /headers, over the header map that the response has when the handler runs.
unfoldable pub headers_body : Headers → Bytes
unfolding get_view set
headers_body h =
    let authorized = set h (codes "Authorization") (codes "Bearer [token]") in
    let auth = value_or (get_view authorized (codes "authorization")) (codes "<not found>") in
    let fake = value_or (get_view authorized (codes "fake")) (codes "<not found>") in
    let warned = set authorized (codes "X-Fake") (codes "warning") in
    codes "auth is "
    ++ auth
    ++ newline
    ++ codes "fake is "
    ++ fake
    ++ newline
    ++ codes "X-Fake is "
    ++ value_or (get_view warned (codes "x-fake")) (codes "<not found>")

-- A handler is given a new response, whose map is empty.
unfoldable pub headers_handler : Request → List Action
unfolding headers_body
headers_handler req =
    header (setting (codes "Authorization") (codes "Bearer [token]"))
    ∷ header (setting (codes "X-Fake") (codes "warning"))
    ∷ send (value ok) (headers_body [])
    ∷ []

-- `none`: the file cannot be opened.
unfoldable pub file_handler : Option Bytes → Request → List Action
unfolding opened file_producer
file_handler none req = send (value internal_server_error) (codes "Failed to open file") ∷ []
file_handler (some content) req =
    header (setting (codes "Content-Type") (codes "text/plain"))
    ∷ stream (value ok) (codes "chunked") (file_producer (opened content))
    ∷ send (value bad_request) []
    ∷ []

unfoldable pub api : Request → List Action
unfolding get_param
api req =
    send (value ok)
      (codes "I'm capturing one group for API endpoints: " ++ value_or (get_param req 0) [])
    ∷ []

unfoldable pub cert_text : TlsCertInfo → Bytes
cert_text info =
    codes "--- Client certificate ---"
    ++ newline
    ++ codes "Subject:"
    ++ show_slice info.buffer info.subject_name
    ++ newline
    ++ codes "Issuer:"
    ++ show_slice info.buffer info.issuer_name
    ++ newline
    ++ codes "Serial Number:"
    ++ show_slice info.buffer info.serial_number
    ++ newline
    ++ codes "Not Before:"
    ++ show_slice info.buffer info.not_before
    ++ newline
    ++ codes "Not After:"
    ++ show_slice info.buffer info.not_after
    ++ newline
    ++ codes "Fingerprint:"
    ++ show_slice info.buffer info.fingerprint

unfoldable pub cert : Request → List Action
unfolding cert_text get_tls_cert_info
cert req = elim (get_tls_cert_info req) [
  | some info ↦ send (value ok) (cert_text info) ∷ []
  | none ↦ send (value bad_request) (codes "No client certificate provided") ∷ []
]

unfoldable pub fallback_handler : Request → List Action
fallback_handler req = send (value not_found) (codes "404 Not Found") ∷ []
