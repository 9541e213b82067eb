-- ===== src/Tests/Streams.antt =====
-- Runs of the event stream and of the poll of an expired feature.
use sctp_conformance.Base.{
  ◌≡◌, ◌≢◌, refl, arith, true, Bool, not, ◌&&◌, ◌==◌, All, List, [], ◌∷◌, Option, none, some, Bytes,
  codes, bytes_eq,
}
use sctp_conformance.Json.Parser.{parse_json_root_object, parse_simple_json_object}
use sctp_conformance.Feature.{agent_reported, agent_only, active, timed_out}
use sctp_conformance.Session.{
  FeatureExecution, new_execution, activate_execution, set_active_feature, maybe_timeout,
}
use sctp_conformance.Api.Start.{start_feature, start_kind, finish_start, set_contract, set_waiting}
use sctp_conformance.Server.State.{
  Session, Server, find, assign, find_feature, new_features, on_feature,
}
use sctp_conformance.Server.Pages.{
  session_json, session_features_from, summary_json, summary_loop, summary_round, summary_text,
}
use sctp_conformance.Server.Route.{
  route, dashboard_of, api_route, split_path, path_parts, parts_route, session_route, feature_route,
}
use sctp_conformance.Server.Requests.{
  Surroundings, Reply, handle_request, handle_route, create, new_session, with_session, on_session,
  feature_request,
}
use sctp_conformance.Server.Paths.{IsPart}
use sctp_conformance.Contract.{concat, mode_string, json_rfc_references, state_string}
use sctp_conformance.Base.{decimal}
use sctp_conformance.Text.{json_quote, json_bool, json_array_strings}
use sctp_conformance.Api.Json.{feature_json}
use sctp_conformance.Program.{feature_server}
use sctp_conformance.Program.Safety.{program_serves_clients}
use sctp_conformance.Tests.Data.{feature, no_utc, platform, options}
use sctp_conformance.Server.Framing.{flatten}
use sctp_conformance.Server.Transport.{read_ok}
use sctp_conformance.Server.Stream.{Stream, Round, stream_loop, stream_summary, handle_client}
use sctp_conformance.Server.Events.{events, changes, IsLine, stream_loop_events}
use sctp_conformance.Server.Invariant.{Lands}
use sctp_conformance.Server.Handling.{ServerOk}
use sctp_conformance.Server.Reach.{Reach, initial, start}
use sctp_conformance.Server.Serving.{Served}
use sctp_conformance.Server.Watching.{Watch, round, ends, Answered, Paced, stream_tells_summaries}
use sctp_conformance.Server.Deadline.{poll, expired_feature_frees}
use sctp_conformance.Tests.Server.{
  setting, env, post, begun, first_session, entry, begun-Reach, has_id,
}

abbrev rounds : List Round
rounds =
    record { summary = codes "{}"; now = 0; wrote = true }
    ∷ record { summary = codes "{}"; now = 3000000; wrote = true }
    ∷ record { summary = codes "[]"; now = 3250000; wrote = true }
    ∷ []

abbrev fresh : Stream
fresh = record { last_summary = []; last_heartbeat = 0 }

stream_loop_events_example : events (flatten (stream_loop fresh rounds).0) ≡ changes [] rounds
stream_loop_events_example = stream_loop_events rounds fresh (ground arith)

program_serves_clients_example :
    Lands
      (λ p.
        ServerOk (feature_server no_utc platform options).catalog p.0
        × Served
            (feature_server no_utc platform options)
            env
            none
            none
            (read_ok (post (codes "/v1/sessions")))
            initial
            p)
      (handle_client
        (feature_server no_utc platform options)
        env
        none
        none
        (read_ok (post (codes "/v1/sessions")))
        initial)
program_serves_clients_example =
    program_serves_clients no_utc platform options env none none
      (read_ok (post (codes "/v1/sessions"))) initial start

-- The clock behind every deadline.
abbrev late : Surroundings
late = record env { clock = λ _. 100000000 }

abbrev session : Session
session = first_session (begun.sessions)

session-IsPart : IsPart (codes "s")
session-IsPart = ground arith

feature-IsPart : IsPart (codes "f")
feature-IsPart = ground arith

expired_feature_frees_example :
    (srv' : Server) × (reply : Reply) × (after : Session) × (e' : FeatureExecution)
    × (handle_request setting late (poll (codes "s") (codes "f")) begun ≡ some (srv', reply))
    × (find (codes "s") (srv'.sessions) ≡ some after)
    × (find (codes "f") (after.features) ≡ some e')
    × (e'.state ≡ timed_out)
    × (e'.active_fds ≡ [])
    × (after.active_feature_id ≡ [])
    × ((j : Bytes) (x : FeatureExecution) → find j (after.features) ≡ some x → x.state ≢ active)
unfolding handle_request route dashboard_of api_route handle_route create session_json
    session_features_from new_session new_features find split_path path_parts bytes_eq
    parse_simple_json_object parse_json_root_object parts_route session_route feature_route
    with_session on_session find_feature on_feature feature_request start_feature maybe_timeout
    start_kind finish_start set_contract set_waiting activate_execution set_active_feature assign
    new_execution
expired_feature_frees_example =
    expired_feature_frees setting late begun (codes "s") (codes "f") session (entry begun)
      (feature agent_reported agent_only) (has_id, tt, tt) begun-Reach session-IsPart feature-IsPart
      refl refl refl refl (omega arith)

-- Two rounds of the stream of the session, three seconds apart.
abbrev found_text : Option (Server × Bytes) → Bytes
found_text none = []
found_text (some (srv, text)) = text

abbrev found_server : Option (Server × Bytes) → Server
found_server none = begun
found_server (some (srv, text)) = srv

abbrev first_found : Option (Server × Bytes)
first_found = stream_summary setting env (codes "s") begun

abbrev second_found : Option (Server × Bytes)
second_found = stream_summary setting env (codes "s") (found_server first_found)

abbrev watched_rounds : List Round
watched_rounds =
    record { summary = found_text first_found; now = 0; wrote = true }
    ∷ record { summary = found_text second_found; now = 3000000; wrote = true }
    ∷ []

watching : Watch setting (codes "s") begun watched_rounds (found_server second_found)
unfolding stream_summary handle_request route dashboard_of api_route handle_route create
    session_json session_features_from new_session new_features find split_path path_parts bytes_eq
    parse_simple_json_object parse_json_root_object parts_route session_route feature_route
    with_session on_session find_feature on_feature feature_request start_feature maybe_timeout
    start_kind finish_start set_contract set_waiting activate_execution set_active_feature assign
    new_execution summary_json summary_loop summary_round
watching =
    round env (found_text first_found) 0 true refl
      (round env (found_text second_found) 3000000 true refl ends)

-- No byte of a text ends a line.
abbrev one_line : Bytes → Bool
one_line [] = true
one_line (c ∷ cs) = not (c == b'\n') && one_line cs

one_line-All : (text : Bytes) → one_line text ≡ true → All (λ c. c ≢ b'\n') text
one_line-All [] h = tt
one_line-All (c ∷ cs) h = (λ e. ground (arith, e, h), one_line-All cs (ground (arith, h)))

found_text-IsLine :
    (one_line (found_text first_found) ≡ true) × (one_line (found_text second_found) ≡ true)
unfolding stream_summary handle_request route dashboard_of api_route handle_route create
    session_json session_features_from new_session new_features find split_path path_parts bytes_eq
    parse_simple_json_object parse_json_root_object parts_route session_route feature_route
    with_session on_session find_feature on_feature feature_request start_feature maybe_timeout
    start_kind finish_start set_contract set_waiting activate_execution set_active_feature assign
    new_execution summary_json summary_loop summary_round summary_text concat feature_json
    json_quote decimal json_bool mode_string json_array_strings json_rfc_references state_string
found_text-IsLine = (refl, refl)

watched_rounds-IsLine : All (λ r. (r.wrote ≡ true) × IsLine r.summary) watched_rounds
unfolding stream_summary handle_request route dashboard_of api_route handle_route create
    session_json session_features_from new_session new_features find split_path path_parts bytes_eq
    parse_simple_json_object parse_json_root_object parts_route session_route feature_route
    with_session on_session find_feature on_feature feature_request start_feature maybe_timeout
    start_kind finish_start set_contract set_waiting activate_execution set_active_feature assign
    new_execution summary_json summary_loop summary_round summary_text concat
watched_rounds-IsLine = (
  (refl, (λ e. ground arith, one_line-All (found_text first_found) found_text-IsLine.0)),
  ((refl, (λ e. ground arith, one_line-All (found_text second_found) found_text-IsLine.1)), tt),
)

stream_tells_summaries_example :
    Reach setting (found_server second_found)
    × All (Answered setting (codes "s")) watched_rounds
    × ((env : Surroundings)
        → (p : Server × Bytes) × (stream_summary setting env (codes "s") (found_server second_found)
            ≡ some p))
    × (events (flatten (stream_loop fresh watched_rounds).0) ≡ changes [] watched_rounds)
    × Paced 0 watched_rounds (stream_loop fresh watched_rounds).0
unfolding stream_summary handle_request route dashboard_of api_route handle_route create
    session_json session_features_from new_session new_features find split_path path_parts bytes_eq
    parse_simple_json_object parse_json_root_object parts_route session_route feature_route
    with_session on_session find_feature on_feature feature_request start_feature maybe_timeout
    start_kind finish_start set_contract set_waiting activate_execution set_active_feature assign
    new_execution summary_json summary_loop summary_round
stream_tells_summaries_example =
    stream_tells_summaries setting (codes "s") begun (found_server second_found) watched_rounds
      fresh (first_session ((found_server second_found).sessions)) (has_id, tt, tt) session-IsPart
      begun-Reach watching watched_rounds-IsLine refl
