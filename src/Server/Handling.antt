-- ===== src/Server/Handling.antt =====
-- `HandleRequest` and the invariant of every session.
use mathlib.Core.Path.{subst}
use sctp_conformance.Base.{
  ℕ, ◌≡◌, inl, inr, refl, arith, List, [], ◌∷◌, some, Bytes, All, Option-cases, Bool-cases,
  bytes_eq,
}
use sctp_conformance.Json.Value.{Outcome-cases, Params}
use sctp_conformance.Json.Parser.{parse_simple_json_object}
use sctp_conformance.Http.{HttpRequest}
use sctp_conformance.Feature.{FeatureDefinition}
use sctp_conformance.Session.{Slot, maybe_timeout}
use sctp_conformance.Session.Invariant.{IsConsistent, IsStep, IsStep-trans}
use sctp_conformance.Session.Marks.{maybe_timeout-IsMark, maybe_timeout-pending}
use sctp_conformance.Server.State.{Features, Session, Server, Scope, find, find_feature, on_feature}
use sctp_conformance.Server.Tables.{Has, All-find, All-assign_same}
use sctp_conformance.Server.Pages.{session_json, summary_json}
use sctp_conformance.Server.Invariant.{SessionOk, AllHave, Lands, Lands-elim, Kept, on_feature-Kept}
use sctp_conformance.Server.Creation.{CatalogOk, new_session-SessionOk}
use sctp_conformance.Server.Safety.{
  session_json_total, summary_json-SessionOk, feature_request-IsStep,
}
use sctp_conformance.Server.Route.{
  FeatureRoute, SessionRoute, dashboard, session_info, session_summary, session_other, feature_path,
  Route, index, create_session, features, health, unknown_route, session_path, route,
}
use sctp_conformance.Server.Requests.{
  Surroundings, Setting, Reply, feature_request, on_session, with_session, new_session, create,
  handle_route, handle_request,
}

-- Every session meets the invariant.
abbrev pub ServerOk : List FeatureDefinition → Server → Type 0
ServerOk catalog srv = All (λ s. SessionOk catalog s.1) srv.sessions

-- The catalog's entry for an id has that execution in every session.
find_feature-Has :
    (id : Bytes) (catalog : List FeatureDefinition) (fs : Features)
    → AllHave catalog fs
    → (d : FeatureDefinition) → find_feature id catalog ≡ some d
    → Has d.id fs
unfolding find_feature
find_feature-Has id [] fs h d e = absurd (ground arith)
find_feature-Has id (x ∷ rest) fs h d e = elim (Bool-cases (bytes_eq x.id id)) [
  | inl hit ↦ subst (λ (y : FeatureDefinition). Has y.id fs) {x = x} {y = d} (ground arith) h.0
  | inr miss ↦ find_feature-Has id rest fs h.1 d (ground arith)
]

module _ (setting : Setting) (env : Surroundings) where
  timed-IsStep :
      (r : FeatureRoute) (body : Bytes) (now : ℕ) (s : Slot)
      → IsConsistent s.active_feature_id s.execution
      → IsStep s (feature_request setting env r body (maybe_timeout now s)).0
  timed-IsStep r body now s c =
      let late = maybe_timeout-IsMark now s in
      IsStep-trans s (maybe_timeout now s) _ (maybe_timeout-pending now s) late.step
        (feature_request-IsStep setting env r body (maybe_timeout now s) (late.step.consistent c))

  on_session-SessionOk :
      (r : SessionRoute) (body : Bytes) (c : Scope)
      → SessionOk setting.catalog (c.session)
      → Lands (λ p. SessionOk setting.catalog (p.0.session)) (on_session setting env r body c)
  unfolding on_session
  on_session-SessionOk dashboard body c h = h
  on_session-SessionOk session_info body c h =
      ground (arith, h, session_json_total setting.utc setting.catalog c.session h.complete)
  on_session-SessionOk session_summary body c h =
      let (q, f, later) =
        Lands-elim (λ (q : Scope × Bytes). SessionOk setting.catalog (q.0.session))
          (summary_json setting.utc env.clock setting.catalog c)
          (summary_json-SessionOk setting.catalog setting.utc env.clock c h) in
      rw (f, on_session) later
  on_session-SessionOk (feature_path id r) body c h =
      elim (Option-cases (find_feature id setting.catalog)) [
        | inl missing ↦ rw (missing, on_session) h
        | inr (d, found) ↦
            let run : Slot → Slot × Reply =
              λ s. feature_request setting env r body (maybe_timeout (env.clock 0) s) in
            let (q, f, kept) =
              Lands-elim (λ (q : Scope × Reply). Kept setting.catalog (c.session.features) q.0)
                (on_feature d.id run c)
                (on_feature-Kept setting.catalog d.id run c h
                  (find_feature-Has id setting.catalog _ h.complete d found)
                  (timed-IsStep r body (env.clock 0))) in
            rw (found, on_session) (rw f kept.ok)
      ]
  on_session-SessionOk session_other body c h = h

  with_session-ServerOk :
      (id : Bytes) (r : SessionRoute) (body : Bytes) (srv : Server)
      → ServerOk setting.catalog srv
      → Lands
          (λ p. ServerOk setting.catalog p.0)
          (with_session setting env id (on_session setting env r body) srv)
  unfolding with_session
  with_session-ServerOk id r body srv h = elim (Option-cases (find id (srv.sessions))) [
    | inl missing ↦ rw (missing, with_session) h
    | inr (session, found) ↦
        let c : Scope = record { session = session; closed = srv.closed } in
        let good : SessionOk setting.catalog session =
          All-find (λ s. SessionOk setting.catalog s.1) id session (srv.sessions) h found in
        let (q, f, later) =
          Lands-elim (λ (q : Scope × Reply). SessionOk setting.catalog (q.0.session))
            (on_session setting env r body c) (on_session-SessionOk r body c good) in
        rw (found, with_session)
          (rw (f, with_session)
            (All-assign_same (λ s. SessionOk setting.catalog s.1) id (q.0.session) (srv.sessions)
              (λ _. later) h))
  ]

  create-ServerOk :
      (params : Params) (srv : Server)
      → CatalogOk setting.catalog
      → ServerOk setting.catalog srv
      → Lands (λ p. ServerOk setting.catalog p.0) (create setting env params srv)
  unfolding create
  create-ServerOk params srv k h =
      let session : Session = new_session setting env params in
      let good : SessionOk setting.catalog session =
        new_session-SessionOk setting.catalog session k (unfold new_session in refl)
          (unfold new_session in refl) in
      let (text, e, _) =
        Lands-elim (λ (_ : Bytes). Unit {0}) (session_json setting.utc setting.catalog session)
          (session_json_total setting.utc setting.catalog session good.complete) in
      rw (e, create)
        (All-assign_same (λ s. SessionOk setting.catalog s.1) env.random_id session (srv.sessions)
          (λ _. good) h)

  handle_route-ServerOk :
      (r : Route) (body : Bytes) (srv : Server)
      → CatalogOk setting.catalog
      → ServerOk setting.catalog srv
      → Lands (λ p. ServerOk setting.catalog p.0) (handle_route setting env r body srv)
  unfolding handle_route
  handle_route-ServerOk index body srv k h = h
  handle_route-ServerOk health body srv k h = h
  handle_route-ServerOk features body srv k h = h
  handle_route-ServerOk unknown_route body srv k h = h
  handle_route-ServerOk create_session body srv k h =
      elim (Outcome-cases (parse_simple_json_object body)) [
        | inl (e, p) ↦ rw (p, handle_route) h
        | inr (params, p) ↦ rw (p, handle_route) (create-ServerOk params srv k h)
      ]
  handle_route-ServerOk (session_path id r) body srv k h = with_session-ServerOk id r body srv h

  -- With a catalog whose ids are not empty and differ: `HandleRequest` answers every request on a
  -- server whose sessions are in order. It never reads an execution that a session lacks, and
  -- leaves all sessions in order.
  pub handle_request-ServerOk :
      (request : HttpRequest) (srv : Server)
      → CatalogOk setting.catalog
      → ServerOk setting.catalog srv
      → Lands (λ p. ServerOk setting.catalog p.0) (handle_request setting env request srv)
  unfolding handle_request
  handle_request-ServerOk request srv k h =
      handle_route-ServerOk (route request.method request.path) request.body srv k h
