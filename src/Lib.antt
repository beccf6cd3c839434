-- ===== src/Lib.antt =====
-- sml_mcps: the server side of the Model Context Protocol, as this repository implements it in
-- Rust.
--
-- The program's parts. A transport yields JSON-RPC messages: on sockets and pipes `LineReader`
-- (src/transport/line.rs) cuts the stream into lines and reads each as a message
-- (src/types/jsonrpc.rs). The server (src/server.rs) answers the client's requests, and may ask
-- the client something itself: the broker (src/broker.rs) hands out the ids of such requests and
-- brings each answer to the thread that waits for it, while what else is read is set aside for
-- the main loop. A tool may run as a task (src/tasks.rs) whose outcome the client asks for later.
-- Lists are served in pages (src/pagination.rs). Every failure is an `McpError`
-- (src/types/error.rs) that has a JSON-RPC form. A daemon counts its connections and stops when
-- it has been idle (src/transport/daemon_state.rs). Over HTTP a message is the body of a request:
-- src/transport/http1.rs is the HTTP/1.1 server below, src/transport/http.rs keeps the sessions of
-- the clients and gives each message to a server of its own, src/transport/origin.rs says which
-- web origins may use it, and src/auth says which tokens.
--
-- The modules.
--   Prelude: Boolean tests, lists over the native numbers, byte strings, decimal numbers,
--     association lists for the hash maps.
--   Rpc: src/types/jsonrpc.rs. `Rpc.Classify` is `JsonRpcMessage::parse` and `from_value`. What
--     the code uses of serde_json is the interface `Rpc.Json`, so `Value` is a parameter `V`.
--   Error: src/types/error.rs, with `is_malformed` and `error_id` of src/server.rs.
--   Broker: src/broker.rs. The fields of `RequestBroker` are the fields of `Broker`, and each
--     method is the function of its name. `Broker.Mpsc` models the channels of one slot that
--     waiters hold. `Broker.Run` is any sequence of calls.
--   Line: src/transport/line.rs. `read_message` loops over `pass`, one round of its loop;
--     `Line.Source` is the trait `DeadlineRead` with the laws of a stream, and `Line.Framing` says
--     what the lines of a stream are. The bytes that a `BufReader` holds are a field of the
--     reader.
--   Http1: src/transport/http1.rs. `Http1.Wire` is the reader with the socket and the clock, as
--     the list of what the passes of its loops meet in turn, with `read_exactly` and `read_line`;
--     `Http1.ReadHead` is `read_head` and `head_from`, with what is relied on of httparse in
--     `Http1.ReadHead.Passes`; `Http1.FramingOf` is `framing_of`; `Http1.Chunked` is
--     `read_chunked`, against the encodings of `Http1.Chunked.Encoding`; `Http1.Body` is `Body`;
--     `Http1.Response` is `Response` and `render`; `Http1.Serve` is `serve_connection`, where a
--     handler is the tree of its readings of the body, and `Http1.Serve.Slots` is `Slot`.
--   Http: src/transport/http.rs. `Http` itself is `HttpTransport` and `answer_from`;
--     `Http.Sessions` is `Session` and `Sessions`, with the places of the shared sessions in
--     `cells`, and `Http.Sessions.Calls` is any sequence of the calls made of the table;
--     `Http.Gate` is `HttpServer` with its answers, and `Http.Gate.Checks` its `precheck`;
--     `Http.Process` is `process_request`, and `Http.Serving` is `respond`, the handler of `serve_on` and
--     `authenticated_response`. What `Server::process_one` does with the tools is a parameter.
--   Auth: src/auth/jwt.rs, with jsonwebtoken's `decode` as a parameter; `Auth.Resource` is
--     src/auth/resource.rs, and `Auth.Quoted` what a client reads of a challenge.
--   Origin: src/transport/origin.rs, with the parser of IP addresses as a parameter.
--   Tasks: src/tasks.rs. `Tasks.Store` has the methods of `TaskStore`, each given the time it
--     reads; `Tasks.Calls` is any call, and `Tasks.Await` is `await_result`, where each round says
--     what others did while it slept. Times are nanoseconds since 1970.
--   Pagination: src/pagination.rs, with base64 as a parameter.
--   Daemon: src/transport/daemon_state.rs: what a thread does under the lock is one event.
--   Server: the wait for an answer of `ToolEnv` in src/server.rs, over the list of what the clock
--     and the transport yield in turn. `Server.Session` is the handshake: `check_initialized`, the
--     choice of a handler in `dispatch_request`, and the version that `handle_initialize` agrees
--     on. `Server.Logging` is `LogLevel` and `handle_set_level`.
--
-- Numbers. `u64` and `usize` are 64 bits wide; the counter of ids, the generation and the sums of
-- offsets wrap around at 2 ^ 64, and a theorem that needs no wrap says so. The kinds of fuel are
-- the number of rounds of `read_message`, bounded by what the source still yields, and the number
-- of records in `make_room` and
-- of sessions in `evict_oldest`, since each round evicts one. The loops of `read_chunked` and of
-- `serve_connection` have one round more than the peer sends bytes, since each round but the last
-- consumes some; the other loops of src/transport/http1.rs run over the list of what they meet.
--
-- Not modelled: locks, since an operation runs while it holds its lock, and poisoned locks;
-- what is logged; the clock and the random ids, which are arguments; the handlers and the main
-- loop of src/server.rs; of src/transport/http1.rs the accept loop with its thread for refusals,
-- the drain of a socket that is being closed, and TLS; of src/transport/http.rs the panics outside
-- a message's handler; the setup of the keys of a token's validator; the unix and TCP transports;
-- the command line, the bridge and schema checks.
pub mod Prelude
pub mod Rpc
pub mod Error
pub mod Broker
pub mod Http
pub mod Auth
pub mod Http1
pub mod Line
pub mod Tasks
pub mod Origin
pub mod Pagination
pub mod Daemon
pub mod Server
