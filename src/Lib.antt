-- ===== src/Lib.antt =====
-- finchers: a library of composable HTTP endpoints.
--
-- An endpoint makes an action for each request. The service checks the action once (`preflight`)
-- and, if that is incomplete, polls it until it is ready or fails. Combinators build actions from
-- actions; the endpoints at the leaves look at the path, the method and the body of the request.
--
-- Which file models which part:
--   Crates       the third-party crates that the code calls, as a record of types and functions
--   Error        src/error.rs: error values, their status and their response; Error/Downcast is the
--                downcasting of an erased error
--   Context      src/service.rs (`Context`) and src/action.rs: the contexts passed to actions;
--                Context/Local is the thread-local cell of src/service.rs
--   Cursor       src/action.rs (`Cursor`): walking over the segments of the path. Cursor/Split is the
--                independent splitting of a path at its slashes, Cursor/Walk compares the two,
--                and Cursor/Bounds is about where the cursor stands
--   Common       src/common/hlist.rs and src/common/combine.rs; Common/Func is src/common/func.rs
--   Action       src/action.rs and src/endpoint.rs: the traits, and one-shot actions. Action/Runs is
--                the relation of polling an action until it ends, Action/Performing adds the check
--                and the service to it, and Action/Futures is a future as an action
--   Ext          src/endpoint/ext: And, Or, OrStrict, Map (map.rs, map_err.rs), Future (and_then.rs,
--                recover.rs), each with child modules of what is proved of it; Ext/Inside is about
--                the cursor under all of them
--   Boxed        src/endpoint/boxed.rs, with Boxed/Delegation
--   Routing      what the endpoints of src/endpoint denote on the segments of a path: a data type of the
--                endpoints that a program builds, the modelled functions that build them, and the
--                reference that they are compared with; Routing/Answering and Routing/Responding are
--                about the response to a request for such a route, Routing/Bodies about an endpoint that is
--                polled, behind one, Routing/Recovering about futures that are made from its output
--                and its error, Routing/Arguments about a function of several arguments,
--                and Routing/Pathless about a request whose path is empty
--   Syntax       src/endpoint/syntax.rs, with Encoded (encoded.rs), Verb (verb.rs) and PathLiteral
--                (finchers-macros/src/lib.rs: `parse_path` and the generated `extract`)
--   Service      src/service.rs: `dispatch`, `poll_apply` (Service/Driving), and the response that a
--                service sends (Service/Response, Service/Assembly)
--   Output       src/output.rs and src/output: the responses of outputs
--   Cookies      src/service.rs: `Context::cookies`; Cookies/Headers is about the text of the headers
--   Lookup       src/endpoints/header.rs and src/endpoints/query.rs
--   Body         src/endpoints/body.rs, with Body/Receiving and Body/Endpoints
--   Files        src/output/fs.rs: opening a file (Files/Opening) and streaming it (Files/Streaming);
--                src/endpoints/fs.rs: the endpoints for files (Files/Serving, Files/Directory)
--   Finchers     the release of finchers that the two crates below are written for, as a parameter
--   Sessions     finchers-session/src: session.rs (Sessions/With), and the backends of in_memory.rs
--                (Sessions/InMemory), redis.rs (Sessions/Redis) and cookie.rs (Sessions/Cookie)
--   Graphql      finchers-juniper/src: request.rs, and the futures of execute (Graphql/Executing)
--   Template     finchers-template/src: renderer.rs, backend/askama.rs, and the engines with named
--                templates of backend/handlebars.rs and backend/tera.rs (Template/Engines)
--   Runner       src/test.rs: the runner of tests, with the conversions into requests in
--                Runner/Requests
--   Websocket    finchers-tungstenite/src: handshake.rs (Websocket/Handshake) and the action of
--                lib.rs (Websocket/Upgrading)
--   Prelude      shared helpers over the native numbers; Tests holds concrete requests and runs
--
-- How code becomes definitions. A method on `&mut self` with a `&mut` context takes the state of the
-- action and the context, and returns the result with the state and the context that it leaves. A
-- result is an `Outcome`: a value, an error, or a panic. `Poll<T, E>` is an outcome that holds an
-- `Async`. A path is the list of its bytes; a position in it is a `usize`, whose range is larger than
-- the length of any text in memory, so its wrapping is left out. A method, an endpoint or a future of
-- the user is a parameter.
--
-- Left out of a definition: a user's error that overrides `to_response`, and the `debug_assert!` that the
-- text of `segment` is not empty. A chunk of a body is what `bytes()` gives of it.
--
-- Bounds. Collecting the segments of a path runs on fuel, and more fuel than the rest has bytes is
-- enough. The loop of `VerbsIter::next` has at most nine rounds, since each shifts the cursor. A
-- poll of a body runs on fuel, and more rounds than the body has chunks are enough. The loops of
-- `poll_apply` and of `and_then` and `recover` have at most two rounds, and are written out.
--
-- Shared state. A lock, a map behind it, the cookies of an input and the thread-local cell are passed
-- as states too: an operation on them is an `Effect`, which returns its outcome with the state that it
-- leaves, on every path.
--
-- Not modelled: sockets and the runtime (src/server, which src/lib.rs does not declare), the template
-- engines themselves, and the plumbing of the failure crate. Percent coding, header maps, the parsing of
-- URIs, the building of requests, the cookie jar, the Redis client, hashing, MIME types and serde are
-- parameters. The data type of Routing leaves out `remains` and catch-all parameters, which take what
-- is left of the path as it is written, and endpoints that wait; the theorems on the latter are on actions,
-- or on an endpoint behind a route.
pub mod Prelude
pub mod Crates
pub mod Error
pub mod Context
pub mod Cursor
pub mod Common
pub mod Action
pub mod Ext
pub mod Boxed
pub mod Routing
pub mod Syntax
pub mod Service
pub mod Body
pub mod Files
pub mod Cookies
pub mod Lookup
pub mod Finchers
pub mod Sessions
pub mod Output
pub mod Graphql
pub mod Websocket
pub mod Template
pub mod Runner
pub mod Tests
