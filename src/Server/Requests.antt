-- ===== src/Server/Requests.antt =====
-- `CreateSession` and the branches of `HandleRequest`. The two HTML pages are functions of the server
-- and of a session; the program puts in those of `Page`.
use sctp_conformance.Base.{ℕ, true, List, [], Option, none, some, Bytes, codes}
use sctp_conformance.Json.Value.{ok, error, param, Params}
use sctp_conformance.Json.Parser.{parse_simple_json_object}
use sctp_conformance.Http.{HttpRequest, HttpResponse, response, refusal}
use sctp_conformance.Feature.{FeatureDefinition}
use sctp_conformance.Session.{Slot, maybe_timeout}
use sctp_conformance.Socket.{Platform, ServerOptions, KernelAnswers}
use sctp_conformance.Worker.{Worker, no_worker}
use sctp_conformance.Api.Json.{feature_json}
use sctp_conformance.Api.Report.{complete_feature, unsupported_feature}
use sctp_conformance.Api.Start.{start_feature}
use sctp_conformance.Server.State.{
  Session, Server, Scope, find, assign, find_feature, new_features, on_feature,
}
use sctp_conformance.Server.Pages.{features_json, session_json, summary_json}
use sctp_conformance.Server.Route.{
  FeatureRoute, feature_info, feature_start, feature_complete, feature_unsupported, feature_other,
  SessionRoute, dashboard, session_info, session_summary, session_other, feature_path, Route, index,
  create_session, features, health, unknown_route, session_path, route,
}

-- What a request meets outside the program: its readings of the clock, the kernel's answers to
-- the attempts to listen, and the id drawn by `RandomId`.
pub record Surroundings : Type 0 where
  pub clock : ℕ → ℕ
  pub kernel : ℕ → KernelAnswers
  pub random_id : Bytes

-- An answer, with the worker that a start has left running.
pub record Reply : Type 0 where
  pub response : HttpResponse
  pub worker : Worker

abbrev pub plain : HttpResponse → Reply
plain r = record { response = r; worker = no_worker }

-- `{200, page, "text/html; charset=utf-8"}`
abbrev html : Bytes → HttpResponse
html page = record {
  status = 200;
  body = page;
  content_type = codes "text/html; charset=utf-8";
  headers = [];
}

-- What the process knows from its start on.
pub record Setting : Type 0 where
  pub utc : ℕ → Bytes
  pub platform : Platform
  pub options : ServerOptions
  pub catalog : List FeatureDefinition
  pub index_page : Server → Bytes
  pub dashboard_page : Session → Bytes

module _ (setting : Setting) (env : Surroundings) where
  open setting use {utc, platform, options, catalog, index_page, dashboard_page}
  open env use {clock, kernel, random_id}

  -- Behind `maybe_timeout(session, execution)`, the routes of a feature.
  unfoldable pub feature_request : FeatureRoute → Bytes → Slot → Slot × Reply
  feature_request feature_info body s =
      (s, plain (response 200 (feature_json utc s.execution true)))
  feature_request feature_start body s =
      let r = start_feature utc platform options (clock 1) (clock 2) kernel s in
      (r.slot, record { response = r.response; worker = r.worker })
  feature_request feature_complete body s =
      let r = complete_feature utc (clock 1) (clock 2) body s in (r.0, plain r.1)
  feature_request feature_unsupported body s =
      let r = unsupported_feature utc (clock 1) (clock 2) body s in (r.0, plain r.1)
  feature_request feature_other body s = (s, plain (refusal 404 (codes "unknown route")))

  -- A request on one session.
  unfoldable pub on_session : SessionRoute → Bytes → Scope → Option (Scope × Reply)
  on_session dashboard body c = some (c, plain (html (dashboard_page (c.session))))
  on_session session_info body c = elim (session_json utc catalog (c.session)) [
    | none ↦ none
    | some text ↦ some (c, plain (response 200 text))
  ]
  on_session session_summary body c = elim (summary_json utc clock catalog c) [
    | none ↦ none
    | some (c', text) ↦ some (c', plain (response 200 text))
  ]
  on_session (feature_path feature_id r) body c = elim (find_feature feature_id catalog) [
    | none ↦ some (c, plain (refusal 404 (codes "unknown feature")))
    | some d ↦ on_feature d.id (λ s. feature_request r body (maybe_timeout (clock 0) s)) c
  ]
  on_session session_other body c = some (c, plain (refusal 404 (codes "unknown route")))

  -- `FindSession`, and the session written back.
  unfoldable pub with_session :
      Bytes → (Scope → Option (Scope × Reply)) → Server → Option (Server × Reply)
  unfolding find assign
  with_session id f srv = elim (find id (srv.sessions)) [
    | none ↦ some (srv, plain (refusal 404 (codes "unknown session")))
    | some session ↦ elim (f (record { session = session; closed = srv.closed })) [
      | none ↦ none
      | some (c, reply) ↦
          some
            (record { sessions = assign id (c.session) (srv.sessions); closed = c.closed }, reply)
    ]
  ]

  -- The session that `CreateSession` makes.
  unfoldable pub new_session : Params → Session
  unfolding new_features param
  new_session params = record {
    id = random_id;
    agent_name = param (codes "agent_name") params;
    environment_name = param (codes "environment_name") params;
    created_at = clock 0;
    features = new_features catalog;
    active_feature_id = [];
  }

  unfoldable pub create : Params → Server → Option (Server × Reply)
  create params srv =
      let session = new_session params in
      elim (session_json utc catalog session) [
        | none ↦ none
        | some text ↦ some (
          record srv { sessions = assign random_id session (srv.sessions) },
          plain (response 201 text),
        )
      ]

  unfoldable pub handle_route : Route → Bytes → Server → Option (Server × Reply)
  handle_route index body srv = some (srv, plain (html (index_page srv)))
  handle_route health body srv = some (srv, plain (response 200 (codes "{\"ok\":true}")))
  handle_route features body srv = some (srv, plain (response 200 (features_json catalog)))
  handle_route create_session body srv = elim (parse_simple_json_object body) [
    | error e ↦ some (srv, plain (refusal 400 e))
    | ok params ↦ create params srv
  ]
  handle_route unknown_route body srv = some (srv, plain (refusal 404 (codes "unknown route")))
  handle_route (session_path id r) body srv = with_session id (on_session r body) srv

  unfoldable pub handle_request : HttpRequest → Server → Option (Server × Reply)
  unfolding route
  handle_request request srv = handle_route (route request.method request.path) request.body srv
