-- ===== src/Tests/Later.antt =====
-- What follows on the verdict of a feature, and the summary of a session.
use sctp_conformance.Base.{
  ◌≡◌, refl, arith, true, [], Option, none, some, Bytes, codes, bytes_eq, length, All,
}
use sctp_conformance.Json.Parser.{parse_json_root_object, parse_simple_json_object}
use sctp_conformance.Session.{
  new_execution, maybe_timeout, activate_execution, set_active_feature, release,
  clear_active_feature, close_active_fds,
}
use sctp_conformance.Api.Start.{
  open_targets, start_feature, start_kind, finish_start, set_contract, set_waiting,
}
use sctp_conformance.Api.Report.{
  complete_feature, report_ids, read_assoc_ids, requires_ids, accept_report, get_string,
}
use sctp_conformance.Api.Targets.{AllOrNone, open_targets-AllOrNone}
use sctp_conformance.Socket.Leaks.{enough}
use sctp_conformance.Server.State.{
  Server, Scope, find, assign, find_feature, new_features, on_feature,
}
use sctp_conformance.Server.Creation.{new_session-SessionOk}
use sctp_conformance.Server.Pages.{
  summary_json, summary_loop, summary_round, session_json, session_features_from,
}
use sctp_conformance.Server.Summary.{count_in, summary_of, Tells, Ended, summary_json_counts}
use sctp_conformance.Feature.{passed, failed, unsupported, timed_out, pending, active}
use sctp_conformance.Base.{◌+◌}
use sctp_conformance.Server.Route.{
  route, dashboard_of, api_route, split_path, path_parts, parts_route, session_route, feature_route,
}
use sctp_conformance.Server.Requests.{
  Surroundings, Reply, handle_request, handle_route, create, new_session, with_session, on_session,
  feature_request,
}
use sctp_conformance.Server.Survival.{Survives}
use sctp_conformance.Server.Finality.{same, request, verdict_is_final}
use sctp_conformance.Tests.Data.{platform, options, kernel, no_utc}
use sctp_conformance.Tests.Server.{
  setting, env, post, server_of, reply_of, is_some, some_of, reported, first_session, entry, has_id,
}

-- A second report comes, while the next id to be drawn is another.
abbrev later_env : Surroundings
later_env = record env { random_id = codes "t" }

abbrev again : Option (Server × Reply)
again =
    handle_request setting later_env (post (codes "/v1/sessions/s/features/f/complete")) reported

again-run : is_some again ≡ true
unfolding handle_request route dashboard_of api_route handle_route create session_json
    session_features_from new_session new_features find split_path path_parts bytes_eq
    parse_simple_json_object parse_json_root_object parts_route session_route feature_route
    with_session on_session find_feature on_feature
again-run = refl

reported-Survives : Survives (codes "s") (codes "f") (entry reported) reported
unfolding handle_request route dashboard_of api_route handle_route create session_json
    session_features_from new_session new_features find split_path path_parts bytes_eq
    parse_simple_json_object parse_json_root_object parts_route session_route feature_route
    with_session on_session find_feature on_feature feature_request start_feature maybe_timeout
    start_kind finish_start set_contract set_waiting activate_execution set_active_feature assign
    new_execution complete_feature report_ids read_assoc_ids requires_ids accept_report get_string
    release clear_active_feature close_active_fds
reported-Survives = (first_session (reported.sessions), refl, refl)

verdict_is_final_example : Survives (codes "s") (codes "f") (entry reported) (server_of again)
unfolding handle_request route dashboard_of api_route handle_route create session_json
    session_features_from new_session new_features find split_path path_parts bytes_eq
    parse_simple_json_object parse_json_root_object parts_route session_route feature_route
    with_session on_session find_feature on_feature feature_request start_feature maybe_timeout
    start_kind finish_start set_contract set_waiting activate_execution set_active_feature assign
    new_execution complete_feature report_ids read_assoc_ids requires_ids accept_report get_string
    release clear_active_feature close_active_fds
verdict_is_final_example =
    verdict_is_final setting (codes "s") reported (server_of again) (codes "f") (entry reported)
      (request later_env (post (codes "/v1/sessions/s/features/f/complete")) (reply_of again) same
        (λ e. ground arith) (some_of again again-run))
      refl reported-Survives

open_targets-AllOrNone_example :
    AllOrNone
      (enough options 1)
      (λ _. kernel)
      0
      2
      []
      (open_targets no_utc platform options 1 2 (λ _. kernel) 0 [] [])
open_targets-AllOrNone_example = open_targets-AllOrNone no_utc platform options 1 2 (λ _. kernel)

-- A new session, and its summary.
abbrev scope : Scope
scope = record { session = new_session setting env []; closed = [] }

abbrev result : Scope × Bytes
result = elim (summary_json no_utc env.clock setting.catalog scope) [
  | none ↦ (scope, [])
  | some r ↦ r
]

result-is : summary_json no_utc env.clock setting.catalog scope ≡ some result
unfolding summary_json summary_loop summary_round on_feature find new_session new_features bytes_eq
result-is = refl

summary_json_counts_example :
    let table = result.0.session.features in
    (word features : Bytes) × (result.1
      ≡ summary_of
          (result.0.session.id)
          (λ state. count_in state setting.catalog table)
          word
          features)
    × (count_in passed setting.catalog table
          + count_in failed setting.catalog table
          + count_in unsupported setting.catalog table
          + count_in timed_out setting.catalog table
          + count_in pending setting.catalog table
          + count_in active setting.catalog table
        ≡ length setting.catalog)
    × Tells word (All (Ended table) setting.catalog)
summary_json_counts_example =
    summary_json_counts no_utc env.clock setting.catalog scope result.0 result.1 (has_id, tt, tt)
      (new_session-SessionOk setting.catalog (new_session setting env []) (has_id, tt, tt)
        (unfold new_session in refl) (unfold new_session in refl))
      result-is
