-- ===== src/Lib.antt =====
-- localserver, an HTTP/1.1 server on epoll: its request parser, configuration, sessions, routing
-- and CGI runner, translated from the Rust source.
--
-- How the program works. `main` (src/main.rs) reads a configuration (`Config::from_file`,
-- src/config/mod.rs: tokenizer.rs, parser.rs and a check for duplicates), groups the servers by
-- address and runs an event loop for each group (src/server.rs over src/epoll.rs). The loop reads
-- bytes, parses them (`Request::parse`, src/request.rs), has a response built
-- (`build_response`, src/handler.rs: files, uploads, sessions of src/utils/session.rs, scripts of
-- src/cgi.rs) and writes its bytes (`serialize_response`).
--
-- Which file models what.
--   Base, Std: shared lemmas; the parts of Rust's standard library that the source calls on text
--     (`Std.Text`: trim, split, lines, lower case), UTF-8, numbers, slices and `HashMap`.
--   Request.Chunked: `decode_chunked`. Request.Message: `Method`, `Request`, `Request::parse`,
--     `cookies`, `session_id`, `content_length`.
--   Session: the session store; Session.Identifier: `generate_id`; Session.Dictionary: what the
--     store promises.
--   Config.Data, Config.Size, Config.Load: src/config/mod.rs, and the groups of src/main.rs.
--   Config.Tokenizer: `tokenize`. Config.Parser: src/config/parser.rs and errors.rs.
--     Config.Written: configurations as their authors write them, and the reading of them.
--   Response, Response.Send: src/response.rs. Response.Serialize: `serialize_response` of src/server.rs.
--   Handler.Route, Files, Listing, Users, Build, Helper: src/handler.rs. Handler.Build.Sessions: the
--     requests of several clients, one after the other.
--   Cgi.Output, Cgi.Run: src/cgi.rs.
--   Server, Server.Read, Write, Rounds, Run: src/server.rs. A socket is what its reads and writes say,
--     and the calls that the loop makes of the kernel are kept in its state. Server.Exchange puts
--     the parser, the handlers and the loop together.
--     Server.Watch: the phases of a connection, by the calls of the loop and by the kernel.
--   Epoll: src/epoll.rs. Main: src/main.rs.
--   Tests: the theorems at concrete inputs, and runs.
--
-- How it is modelled. A `str` is the list of its characters and a `[u8]` the list of its bytes;
-- UTF-8 stands between them. `HashMap` is an association list in which an insertion replaces.
-- `usize` is a number with `% 2^64` where the source may overflow. `Option` with panics is
-- `Outcome`, and so is a call that may never return. State (session store, disk, parser position)
-- is passed along. A definition splits a function of the source where it has a loop or a match of
-- its own.
--
-- Parameters, for what is not in the repository: the tables of Unicode for lower case outside
-- ASCII (`Unicode`), the file system (`FileSystem`), processes (`Processes`), the clock and the
-- process number (`Moment`), the socket of `Response::send` (`Wire`) and the calls of libc
-- for epoll (`Kernel`). The system's clock is not before 1970, where `generate_id` would panic.
-- A process may leave its input full or its output open, and the calls that wait for it then never
-- return.
--
-- Fuel. `decode_chunked` has a round for each byte and two, and each round passes two bytes or
-- more. The loops of the configuration parser have a round for each token and one, and each
-- round passes a token. `wait_with_timeout` polls 1002 times: at ten milliseconds a poll the
-- timeout of ten seconds is over by then. `handle_write` writes once for each byte at most.
--
-- Not modelled: printing, threads (requests that several listeners answer are a sequence, since a
-- handler holds the lock of the sessions over all that it does with them), the timeout that
-- `CgiRunner` can be given and does not read, the example in examples/listen, which is no part of
-- the server, and the texts of configuration errors, which are constructors with what they print.
pub mod Base
pub mod Std
pub mod Request
pub mod Session
pub mod Config
pub mod Response
pub mod Handler
pub mod Cgi
pub mod Epoll
pub mod Server
pub mod Main
pub mod Tests
