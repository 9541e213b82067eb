-- ===== src/Lib.antt =====
-- The SCTP feature server of server/freebsd_ref/main.cpp: sessions of an agent, the conformance
-- features that it starts, reports or declares unsupported over HTTP, and the threads that watch
-- the SCTP traffic of a running feature. Also adapters/freebsd_c/helper.c, a client program that
-- the runner starts on the FreeBSD host. The rest of the repository (the adapter in Go, runner,
-- scripts, profiles) is not modelled.
--
-- The parts, and how they correspond to the code:
--
-- - Base: Boolean tests, lists measured by native numbers, byte strings, and integers for
--   descriptors. A `char` is a byte, a number below 256.
-- - Text: `trim` to `join`, the JSON and HTML escapes and the small JSON writers. Json: the JSON
--   reader, `append_utf8_codepoint` to `parse_simple_json_object`. The index `i` is the part of the
--   input that is left. Json/RoundTrip, Json/Shrinks and Json/Total are about it.
-- - Feature: the structs up to `FeatureDefinition`. Payload: `materialize_payload`. Contract: the
--   JSON of a feature's contract up to `build_contract`. Http: requests, answers and status texts.
-- - Catalog: `build_feature_catalog`, with its makers and references; Catalog/Ids and
--   Catalog/Runnable are about what the rest relies on.
-- - Session: `FeatureExecution` and the functions that change one under the two mutexes,
--   `clear_active_feature` to `maybe_timeout` and `activate_execution`. They work on a `Slot`: the
--   `active_feature_id` of the session, the execution, and the list of descriptors closed so far.
--   Session/Invariant has what a slot must meet and what a step may change, Session/Marks the marks
--   against it.
-- - Options: `parse_options`. Text/Split, Text/Html and Options/Usable are about it and the text
--   helpers.
-- - Socket: `create_listening_socket` over the answers of the kernel to its calls. Worker: the four
--   `run_..._worker` threads as functions of what `sctp_recvv` and `sctp_sendv` return; their
--   verdict is marked on the slot by `conclude`.
-- - Api: `FeatureJsonLocked` (Api/Json), `CompleteFeature` and `UnsupportedFeature` (Api/Report)
--   and `StartFeature` (Api/Start), with what they do to a slot in Api/Steps, Api/Begin and
--   Api/Verdicts. Api/Blocks takes the marks of workers, the check of the deadline, a report and a
--   declaration apart into blocks, one for each mutex that they take and each descriptor that they
--   close; Api/Alone has one such call with nothing in between, and Api/Concurrent and Api/Together
--   any number of them in any order.
-- - Server: the tables of `FeatureServer` (Server/State), its JSON pages (Server/Pages), its routes
--   (Server/Route), and `CreateSession` and `HandleRequest` (Server/Requests). `ReadHttpRequest`,
--   `WriteHttpResponse` and `write_all` (Server/Transport) work on what `read` and `write` return.
--   Server/Reach has the steps of a whole server: a request, or the end of a worker.
-- - Server/Stream: `HandleClient` and the event stream `HandleSummaryStream`, as rounds that each
--   find a summary, a reading of the steady clock and whether the write succeeded. Server/Events
--   reads such a stream as a browser does; Server/Watching runs it on a server that requests change
--   meanwhile, Server/Serving is about `HandleClient`, and Server/Deadline about polls at a
--   deadline. Server/Tally and Server/Summary are about the counts of `SummaryJson`.
-- - Server/Startup: `Run`, `CheckSctpAvailable` and `CreateHttpSocket` over what their calls
--   return. Server/Ids: `RandomId` on what it draws.
-- - Page: `SessionIndexHtml` and `DashboardHtml`, with the cards in Page/Cards and the fixed text
--   of the pages in the modules below Page/Index and Page/Dashboard. Page/Headings, Page/Listing
--   and Page/Tags are about the index page. The server takes the two pages as functions of its
--   tables, which these are.
-- - Helper: adapters/freebsd_c/helper.c, the client program of the FreeBSD host: its lines
--   (Helper/Lines), readers (Helper/Parse), arguments (Helper/Args) and `run_server`
--   (Helper/Server), `run_client` (Helper/Client) and `main` (Helper/Main) over the answers of libc
--   and the kernel, with what they share in Helper/Endpoints. Helper/Released, Helper/Closing,
--   Helper/Exit, Helper/Outcome, Helper/Reports, Helper/Messages and Helper/Bounds are about them,
--   and Helper/Exchange joins a client with a worker of the server.
-- - Program: the constructor of `FeatureServer`, with the catalog and the pages, and `main`;
--   Program/Safety is about the whole.
-- - Tests: runs on concrete inputs.
--
-- A map is a list of keys and values with `find` and `assign`; a session is stored by value and
-- written back by the request that changed it. A missing key where the code calls `at` is `none`.
-- Time points are numbers of microseconds, and each reading of the clock is an argument, so that
-- two readings of one request may differ in any way. Text that only a library of the platform can
-- produce is a parameter: `gmtime`, `strerror`, the numbers of the errors, the peer addresses and
-- the random id; the two HTML pages, which only read the server, are parameters too. No law is
-- asked of any of them.
--
-- A request is one step, and so is the mark that ends a worker: interleavings between the locked
-- blocks of the handlers are outside these steps. Api/Together is about those of the calls that may
-- end one execution. Api/Races takes `StartFeature` apart into its blocks, for two calls at once on
-- features without traffic; Api/Schedules is about all orders of these blocks. The worker of a step
-- is not tied to the start that made it: any verdict may come for any feature at any time, which
-- includes every behaviour of the threads. The fields of fixed width are unbounded numbers; the
-- code computes with none of them but the sizes of payloads and the timeouts, and the port is cut
-- to 16 bits as in the code.
--
-- The JSON reader runs on fuel, three units for each byte of the body and three more, since each
-- round of a loop and each member of an object or an array reads a byte at least.
-- `materialize_payload` has the size as fuel, as each round writes a byte at least; the string loop
-- has one unit for each byte.
--
-- The server takes the catalog of the features as a parameter whose ids are distinct and not empty
-- (`CatalogOk`). Not modelled: how threads are scheduled within a handler, but for two starts at
-- once and for the calls that may end one execution; what the scripts of the dashboard do in a
-- browser; the memory of the helper in C beyond the bounds of its arrays; signals, so that a write
-- to a closed connection is a failed write, though SIGPIPE would end the program; a thread that
-- cannot be made; and the depth of the stack, which deeply nested JSON may exhaust.
pub mod Base
pub mod Text
pub mod Json
pub mod Feature
pub mod Catalog
pub mod Payload
pub mod Http
pub mod Contract
pub mod Session
pub mod Socket
pub mod Options
pub mod Worker
pub mod Api
pub mod Server
pub mod Helper
pub mod Page
pub mod Program
pub mod Tests
