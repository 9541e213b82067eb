-- ===== src/Tests/Server.antt =====
-- A session in which an agent starts a feature and reports it.
use sctp_conformance.Base.{
  ◌≡◌, ◌≢◌, ◌⊎◌, refl, arith, Bool, true, false, List, [], ◌∷◌, Option, none, some, Bytes, codes,
  bytes_eq,
}
use sctp_conformance.Json.Parser.{parse_json_root_object, parse_simple_json_object}
use sctp_conformance.Http.{HttpRequest, refusal}
use sctp_conformance.Feature.{agent_reported, server_observed, agent_only}
use sctp_conformance.Session.{
  FeatureExecution, new_execution, activate_execution, set_active_feature, maybe_timeout, release,
  clear_active_feature, close_active_fds,
}
use sctp_conformance.Api.Start.{start_feature, start_kind, finish_start, set_contract, set_waiting}
use sctp_conformance.Api.Report.{
  complete_feature, report_ids, read_assoc_ids, requires_ids, accept_report, get_string,
}
use sctp_conformance.Server.State.{
  Session, Server, find, assign, find_feature, new_features, on_feature,
}
use sctp_conformance.Server.Pages.{session_json, session_features_from}
use sctp_conformance.Server.Route.{
  route, dashboard_of, api_route, split_path, path_parts, parts_route, session_route, feature_route,
}
use sctp_conformance.Server.Requests.{
  Surroundings, Setting, Reply, plain, handle_request, handle_route, create, new_session,
  with_session, on_session, feature_request,
}
use sctp_conformance.Server.Reach.{
  initial, Step, request, Reach, start, next, one_active_feature, passed_is_justified,
}
use sctp_conformance.Server.Invariant.{Lands}
use sctp_conformance.Server.Handling.{ServerOk, handle_request-ServerOk}
use sctp_conformance.Tests.Data.{platform, options, kernel, no_utc, feature}

abbrev pub setting : Setting
setting = record {
  utc = no_utc;
  platform = platform;
  options = options;
  catalog = feature agent_reported agent_only ∷ [];
  index_page = λ _. [];
  dashboard_page = λ _. [];
}

abbrev pub env : Surroundings
env = record { clock = λ _. 10; kernel = λ _. kernel; random_id = codes "s" }

abbrev pub post : Bytes → HttpRequest
post path = record { method = codes "POST"; path = path; headers = []; body = codes "{}" }

abbrev pub server_of : Option (Server × Reply) → Server
server_of none = initial
server_of (some (srv, _)) = srv

abbrev pub reply_of : Option (Server × Reply) → Reply
reply_of none = plain (refusal 0 [])
reply_of (some (_, reply)) = reply

abbrev pub is_some : Option (Server × Reply) → Bool
is_some none = false
is_some (some _) = true

pub some_of : (o : Option (Server × Reply)) → is_some o ≡ true → o ≡ some (server_of o, reply_of o)
some_of none h = absurd (ground arith)
some_of (some (srv, reply)) h = refl

abbrev pub run : Bytes → Server → Option (Server × Reply)
run path srv = handle_request setting env (post path) srv

abbrev pub created : Server
created = server_of (run (codes "/v1/sessions") initial)

abbrev pub begun : Server
begun = server_of (run (codes "/v1/sessions/s/features/f/start") created)

abbrev pub reported : Server
reported = server_of (run (codes "/v1/sessions/s/features/f/complete") begun)

goes_on :
    (path : Bytes) (srv : Server)
    → is_some (run path srv) ≡ true
    → Step setting srv (server_of (run path srv))
goes_on path srv h = request env (post path) (reply_of (run path srv)) (some_of (run path srv) h)

created-run : is_some (run (codes "/v1/sessions") initial) ≡ true
unfolding handle_request route dashboard_of api_route handle_route create session_json
    session_features_from new_session new_features find split_path path_parts bytes_eq
    parse_simple_json_object parse_json_root_object
created-run = refl

begun-run : is_some (run (codes "/v1/sessions/s/features/f/start") created) ≡ true
unfolding handle_request route dashboard_of api_route handle_route create session_json
    session_features_from new_session new_features find split_path path_parts bytes_eq
    parse_simple_json_object parse_json_root_object parts_route session_route feature_route
    with_session on_session find_feature on_feature
begun-run = refl

reported-run : is_some (run (codes "/v1/sessions/s/features/f/complete") begun) ≡ true
unfolding handle_request route dashboard_of api_route handle_route create session_json
    session_features_from new_session new_features find split_path path_parts bytes_eq
    parse_simple_json_object parse_json_root_object parts_route session_route feature_route
    with_session on_session find_feature on_feature
reported-run = refl

pub begun-Reach : Reach setting begun
begun-Reach = next (next start (goes_on _ initial created-run)) (goes_on _ created begun-run)

reported-Reach : Reach setting reported
reported-Reach = next begun-Reach (goes_on _ begun reported-run)

abbrev pub first_session : List (Bytes × Session) → Session
first_session [] = new_session setting env []
first_session ((_, session) ∷ _) = session

abbrev pub first_entry : List (Bytes × FeatureExecution) → FeatureExecution
first_entry [] = new_execution (feature agent_reported agent_only)
first_entry ((_, e) ∷ _) = e

abbrev pub entry : Server → FeatureExecution
entry srv = first_entry (first_session (srv.sessions)).features

pub has_id : codes "f" ≢ []
has_id e = ground arith

-- While it runs, the agent's feature is the session's active one.
one_active_feature_example :
    (codes "f" ≡ codes "f") × ((first_session (begun.sessions)).active_feature_id ≡ codes "f")
unfolding handle_request route dashboard_of api_route handle_route create session_json
    session_features_from new_session new_features find split_path path_parts bytes_eq
    parse_simple_json_object parse_json_root_object parts_route session_route feature_route
    with_session on_session find_feature on_feature feature_request start_feature maybe_timeout
    start_kind finish_start set_contract set_waiting activate_execution set_active_feature assign
    new_execution
one_active_feature_example =
    one_active_feature setting begun (codes "s") (first_session (begun.sessions)) (codes "f")
      (codes "f") (entry begun) (entry begun) (has_id, tt, tt) begun-Reach refl refl refl refl refl

-- Behind its report it has passed, was reported, and holds no descriptor.
passed_is_justified_example :
    (((entry reported).definition.completion_mode ≡ agent_reported)
      ⊎ ((entry reported).network_complete ≡ true))
    × (((entry reported).definition.completion_mode ≡ server_observed)
        ⊎ ((entry reported).agent_complete ≡ true))
    × ((entry reported).active_fds ≡ [])
unfolding handle_request route dashboard_of api_route handle_route create session_json
    session_features_from new_session new_features find split_path path_parts bytes_eq
    parse_simple_json_object parse_json_root_object parts_route session_route feature_route
    with_session on_session find_feature on_feature feature_request start_feature maybe_timeout
    start_kind finish_start set_contract set_waiting activate_execution set_active_feature assign
    new_execution complete_feature report_ids read_assoc_ids requires_ids accept_report get_string
    release clear_active_feature close_active_fds
passed_is_justified_example =
    passed_is_justified setting reported (codes "s") (first_session (reported.sessions)) (codes "f")
      (entry reported) (has_id, tt, tt) reported-Reach refl refl refl

handle_request-ServerOk_example :
    Lands
      (λ p. ServerOk setting.catalog p.0)
      (handle_request setting env (post (codes "/v1/sessions")) initial)
handle_request-ServerOk_example =
    handle_request-ServerOk setting env (post (codes "/v1/sessions")) initial (has_id, tt, tt) tt
