-- ===== src/Server/Stream.antt =====
-- `HandleClient`, `HandleSummaryStream`, `WriteSseEvent` and `set_http_timeout` of
-- server/freebsd_ref/main.cpp. The stream of one client is a sequence of rounds. What a round finds
-- is what `SummaryJson` returns, one reading of the steady clock, and whether `write_all` wrote.
use sctp_conformance.Base.{
  ℕ, ◌-◌, ◌*◌, Bool, true, false, not, ◌&&◌, List, [], ◌∷◌, ◌++◌, Option, none, some, leb,
  if◌then◌else◌, Bytes, codes, bytes_eq, is_empty,
}
use sctp_conformance.Text.{get_lines}
use sctp_conformance.Http.{HttpRequest, refusal, http_status_text}
use sctp_conformance.Session.{second}
use sctp_conformance.Socket.{Platform}
use sctp_conformance.Server.State.{Server, find, assign}
use sctp_conformance.Server.Pages.{summary_json}
use sctp_conformance.Server.Route.{split_path}
use sctp_conformance.Server.Transport.{ReadResult, read_ok, read_failed, reading}
use sctp_conformance.Server.Requests.{Surroundings, Setting, Reply, plain, handle_request}

-- The two calls of `setsockopt`, each of which answers nothing or `errno`; the text of the error.
unfoldable pub set_http_timeout : Platform → Option ℕ → Option ℕ → Option Bytes
set_http_timeout platform (some e) send = some (platform.strerror e)
set_http_timeout platform none (some e) = some (platform.strerror e)
set_http_timeout platform none none = none

-- The loop of `WriteSseEvent`.
unfoldable pub data_lines : List Bytes → Bytes
data_lines [] = []
data_lines (line ∷ lines) = codes "data: " ++ (line ++ (b'\n' ∷ data_lines lines))

-- What `WriteSseEvent` writes.
unfoldable pub sse_event : Bytes → Bytes → Bytes
unfolding get_lines data_lines
sse_event event_name text =
    (if is_empty event_name then [] else codes "event: " ++ (event_name ++ (b'\n' ∷ [])))
    ++ (if is_empty text
        then codes "data:\n\n"
        else data_lines (get_lines b'\n' [] text) ++ (b'\n' ∷ []))

-- `last_summary` and `last_heartbeat`.
pub record Stream : Type 0 where
  pub last_summary : Bytes
  pub last_heartbeat : ℕ

abbrev pub keep_alive : Bytes
keep_alive = codes ": keep-alive\n\n"

-- A round of the loop: the text that it writes, if any, and the variables once it is written.
unfoldable pub stream_round : Bytes → ℕ → Stream → Option Bytes × Stream
unfolding bytes_eq sse_event
stream_round summary now st =
    if not (bytes_eq summary st.last_summary)
    then (
      some (sse_event (codes "summary") summary),
      record { last_summary = summary; last_heartbeat = now },
    )
    else if leb (2 * second) (now - st.last_heartbeat)
    then (some keep_alive, record st { last_heartbeat = now })
    else (none, st)

pub record Round : Type 0 where
  pub summary : Bytes
  pub now : ℕ
  pub wrote : Bool

-- A round and those behind it.
unfoldable pub after_round : Bool → Option Bytes → List Bytes × Bool → List Bytes × Bool
after_round wrote none later = later
after_round wrote (some text) later = if wrote then (text ∷ later.0, later.1) else ([], false)

-- The loop: the texts written in full, and whether the loop goes on.
unfoldable pub stream_loop : Stream → List Round → List Bytes × Bool
unfolding stream_round after_round
stream_loop st [] = ([], true)
stream_loop st (r ∷ rounds) =
    let (round, st') = stream_round r.summary r.now st in
    after_round r.wrote round (stream_loop st' rounds)

-- The head of the answer.
unfoldable pub stream_head : Bytes
unfolding http_status_text
stream_head =
    codes "HTTP/1.1 200 "
    ++ (http_status_text 200
        ++ codes
            "\r\nContent-Type: text/event-stream; charset=utf-8\r\nCache-Control: no-cache\r\nConnection: keep-alive\r\nX-Accel-Buffering: no\r\n\r\n")

abbrev pub retry : Bytes
retry = codes "retry: 1000\n\n"

-- `HandleSummaryStream` from the head on.
unfoldable pub run_stream : Bool → Bool → ℕ → List Round → List Bytes × Bool
unfolding stream_head stream_loop
run_stream head_wrote retry_wrote now rounds =
    let later = stream_loop (record { last_summary = []; last_heartbeat = now }) rounds in
    if not head_wrote
    then ([], false)
    else if not retry_wrote
    then (stream_head ∷ [], false)
    else (stream_head ∷ (retry ∷ later.0), later.1)

-- The session whose stream is asked for.
unfoldable pub stream_of : Bytes → List Bytes → Option Bytes
unfolding bytes_eq
stream_of method (a ∷ b ∷ id ∷ c ∷ d ∷ []) =
    if bytes_eq method (codes "GET")
      && bytes_eq a (codes "v1")
      && bytes_eq b (codes "sessions")
      && bytes_eq c (codes "summary")
      && bytes_eq d (codes "stream")
    then some id
    else none
stream_of method _ = none

-- How a client is served: an answer, the stream of a session, or the request is still read.
pub data Client : Type 0 where
  answers : Reply → Client
  streams : Bytes → Client
  reads : Client

-- The status of a request that cannot be read.
unfoldable pub read_status : Bytes → ℕ
unfolding bytes_eq
read_status error = if bytes_eq error (codes "timed out reading HTTP request") then 408 else 400

module _ (setting : Setting) (env : Surroundings) where
  -- The part of a request that can be read.
  unfoldable pub serve_request : HttpRequest → Server → Option (Server × Client)
  unfolding stream_of split_path find
  serve_request request srv = elim (stream_of request.method (split_path request.path)) [
    | some id ↦ elim (find id srv.sessions) [
      | none ↦ some (srv, answers (plain (refusal 404 (codes "unknown session"))))
      | some session ↦ some (srv, streams id)
    ]
    | none ↦ elim (handle_request setting env request srv) [
      | none ↦ none
      | some (srv', reply) ↦ some (srv', answers reply)
    ]
  ]

  unfoldable pub handle_client :
      Option ℕ → Option ℕ → ReadResult HttpRequest → Server → Option (Server × Client)
  unfolding set_http_timeout read_status serve_request
  handle_client receive send request srv = elim (set_http_timeout setting.platform receive send) [
    | some error ↦ some (srv, answers (plain (refusal 500 error)))
    | none ↦ elim request [
      | reading ↦ some (srv, reads)
      | read_failed error ↦ some (srv, answers (plain (refusal (read_status error) error)))
      | read_ok request ↦ serve_request request srv
    ]
  ]

  -- `SummaryJson(session)` in a round of the stream of a session, which is stored by value under its
  -- id.
  unfoldable pub stream_summary : Bytes → Server → Option (Server × Bytes)
  unfolding find assign
  stream_summary id srv = elim (find id srv.sessions) [
    | none ↦ none
    | some session ↦
        elim (summary_json setting.utc env.clock setting.catalog
          (record { session = session; closed = srv.closed })) [
            | none ↦ none
            | some (c, text) ↦
                some
                  (record { sessions = assign id c.session srv.sessions; closed = c.closed }, text)
          ]
  ]
