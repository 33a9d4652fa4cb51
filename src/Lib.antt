-- ===== src/Lib.antt =====
-- mgxx, a C++ wrapper around the embedded web server mongoose: its state, its operations, and what
-- makes them correct.
--
-- The program. A server (include/mgxx/server.hpp, src/server.cpp) runs mongoose's event loop in one
-- thread and holds endpoints (include/mgxx/http/endpoint.hpp, src/http/endpoint.cpp). Mongoose calls
-- one of two functions for each event of a connection; they cast the connection's `fn_data` to the
-- endpoint or, once the connection was accepted, to its remote context, and both end in
-- endpoint::handle. A request goes to the first listener, asset or fallback that matches. A
-- synchronous handler answers on its response; an asynchronous one takes along a shared response,
-- which other threads answer: they store the answer in it and post a wake-up, and the event loop
-- delivers the answer when it serves the wake-up. Answers may stream: a producer is pulled by write
-- events, or a thread hands over chunks through a shared stream, whose state says who may go on.
--
-- The files:
--   Mongoose          what the library asks of mongoose, as a log of calls, and faults
--   Table             the unordered maps as association lists; Table.Order is the order of a loop
--   Http.Headers      class headers; Key is its hash and its equality
--   Http.Status       status_code, format_status_code, the head of a streamed answer
--   Http.AsyncStream  class async_stream; Http.AsyncResponse class async_response
--   Http.Connection   the connection's fields, class remote_context, format_ip; Truncation is what a
--                     client reads of a chunked answer
--   Http.Request      class request; Http.Response class response
--   Http.AsyncRequest class async_request, the copy of a message; Views is what it shows
--   Http.Certificate  class tls_cert_info, and how remote_context::setup fills it: OpenSsl and Mbed
--                     what it reads of a certificate in either build, Peer the choice between them
--   Http.Endpoint     class http::endpoint: State its members, Register what sets it up, Message
--                     handle_http_message, Wakeup handle_wakeup, handle_stream and
--                     handle_response, Tls use_tls, handle_secure and the destructor, Events the
--                     other handlers, handle, and the two functions that mongoose calls (dispatch)
--   Http.Safety       the invariant of the endpoint, and all that its users, threads and connections
--                     can do (Reach)
--   Http.Isolation    what an event of one connection does to the others, and the stop of a server
--                     (Stop)
--   Http.Numbers      the numbers of responses and streams, and what a number names
--   Http.Lost         a response whose connection is closed, in all that may follow
--   Http.Delivery     an asynchronous request from its arrival to its answer, and the answer in any
--                     world (World)
--   Http.Producer     a thread that produces an asynchronous stream, beside the event loop
--   Example           examples/simple/src/main.cpp: File the streamed file, Handlers and Threads what
--                     answers requests, Main how the endpoint is set up, with the loop of main, Routes
--                     requests to its listeners
--   Server            class server: Lifecycle, and Logger for event_manager_logger
--   Tests             the theorems at concrete inputs
--
-- How the state corresponds. A shared object is a place in a list of all responses, or of all
-- streams, ever made (System); the pending maps hold such places, and a null pointer to a stream is
-- `none`. The weak pointer of an asynchronous request to the peer's certificate is a place in a store
-- of the certificates that are still owned (Certs). A pointer that leads nowhere and a cast to another type are faults (Outcome), as is a
-- write past the vector of captures. The calls of mongoose that act on a connection are appended to
-- a log, and so are the wake-ups that are posted. Numbers of connections and requests are natural
-- numbers; the request counter wraps around at 2^64, so theorems that need the number of a response to
-- be its own ask for fewer than 2^64 of them. A call of the user's threads is atomic with
-- respect to the event loop, except where a theorem names a moment inside one
-- (Http.Endpoint.Wakeup.Race).
--
-- What comes from outside is a parameter: mg_match, MG_IO_SIZE, inet_ntop, mg_ntohs, timegm and the
-- order in which the loops visit the maps (Env), the answer of mg_wakeup (Wakeup), what mg_strdup
-- returns (Copied, and the copy that Http.AsyncRequest.new takes), and what OpenSSL or mbedTLS report of a certificate (Peer). Of mg_match it is
-- assumed, where a theorem says so, that it makes at most one capture for each `?`, `*` and `#`
-- of the pattern, as mongoose documents (CapturesFit); of mg_strdup, that it returns a new block with
-- a text that is not empty, or null (Duplicates); of mg_mgr_free, that every connection that was
-- accepted and not closed gets its close event (IsStopped).
--
-- No function needs fuel but `decimal`, which divides by ten and takes the number itself, and the
-- reading of a file in steps of 32 characters, whose fuel is the number of these steps and one more.
--
-- Not modelled: mongoose itself, a submodule; the templates that wrap a user's function; the time
-- that the threads of the example sleep, and what it prints.
pub mod Prelude
pub mod Table
pub mod Mongoose
pub mod Http
pub mod Example
pub mod Server
pub mod Tests
