-- ===== src/Server/Survival.antt =====
-- An execution with a verdict, under one request and under one end of a worker.
use mathlib.Core.Path.{subst}
use sctp_conformance.Base.{
  ℕ, ◌≡◌, ◌≢◌, refl, ◌∙◌, arith, true, List, some, Bytes, bytes_eq, bytes_eq_iff, Option-cases,
  Bool-cases, inl, inr,
}
use sctp_conformance.Base.Int.{ℤ}
use sctp_conformance.Json.Value.{Outcome-cases, Params}
use sctp_conformance.Json.Parser.{parse_simple_json_object}
use sctp_conformance.Http.{HttpRequest}
use sctp_conformance.Session.{FeatureExecution, Slot, mark_failed, mark_network_complete}
use sctp_conformance.Worker.{Verdict, waiting, fails, completes, conclude}
use sctp_conformance.Api.Verdicts.{is_terminal}
use sctp_conformance.Server.State.{Session, Server, Scope, find, assign, on_feature}
use sctp_conformance.Server.Tables.{find-assign}
use sctp_conformance.Server.Pages.{session_json}
use sctp_conformance.Server.Route.{
  SessionRoute, Route, index, create_session, features, health, unknown_route, session_path, route,
}
use sctp_conformance.Server.Requests.{
  Surroundings, Setting, Reply, on_session, with_session, new_session, create, handle_route,
  handle_request,
}
use sctp_conformance.Server.Reach.{finish_worker}
use sctp_conformance.Server.Settled.{on_feature-Settled, on_session-Settled}

-- The session is there, with that execution.
abbrev pub Survives : Bytes → Bytes → FeatureExecution → Server → Type 0
Survives session_id id e srv =
    (session : Session) × (find session_id (srv.sessions) ≡ some session)
    × (find id (session.features) ≡ some e)

-- One id has one session.
owned :
    (key session_id id : Bytes) (e : FeatureExecution) (own session : Session)
    (sessions : List (Bytes × Session))
    → key ≡ session_id
    → find key sessions ≡ some own
    → find session_id sessions ≡ some session
    → find id (session.features) ≡ some e
    → find id (own.features) ≡ some e
owned key session_id id e own session sessions hit at_key found there = ground (arith, there)

-- A session is written back under its id.
assign-Survives :
    (key session_id id : Bytes) (e : FeatureExecution) (session c : Session)
    (sessions : List (Bytes × Session)) (closed : List ℤ)
    → find session_id sessions ≡ some session
    → find id (session.features) ≡ some e
    → (key ≡ session_id → find id (c.features) ≡ some e)
    → Survives session_id id e (record { sessions = assign key c sessions; closed = closed })
assign-Survives key session_id id e session c sessions closed found there kept =
    elim (Bool-cases (bytes_eq key session_id)) [
      | inl hit ↦ (
        c,
        find-assign key session_id c sessions ∙ rw hit,
        kept ((bytes_eq_iff key session_id).0 hit),
      )
      | inr miss ↦ (session, find-assign key session_id c sessions ∙ rw miss found, there)
    ]

module _ (setting : Setting) (env : Surroundings) where
  with_session-Survives :
      (key : Bytes) (r : SessionRoute) (body : Bytes) (srv srv' : Server) (reply : Reply)
      (session_id id : Bytes) (e : FeatureExecution)
      → with_session setting env key (on_session setting env r body) srv ≡ some (srv', reply)
      → is_terminal e.state ≡ true
      → Survives session_id id e srv
      → Survives session_id id e srv'
  unfolding with_session
  with_session-Survives key r body srv srv' reply session_id id e h ends (session, found, there) =
      elim (Option-cases (find key (srv.sessions))) [
        | inl missing ↦
            subst (Survives session_id id e) {x = srv} {y = srv'} (ground (arith, missing))
              (session, found, there)
        | inr (own, at_key) ↦
            let c : Scope = record { session = own; closed = srv.closed } in
            elim (Option-cases (on_session setting env r body c)) [
              | inl missing ↦ absurd (ground (arith, at_key, missing))
              | inr ((d, answer), ran) ↦
                  subst (Survives session_id id e)
                    {x = record { sessions = assign key d.session srv.sessions; closed = d.closed }}
                    {y = srv'} (ground (arith, at_key, ran))
                    (assign-Survives key session_id id e session d.session srv.sessions d.closed
                      found there
                      (λ hit.
                        on_session-Settled setting env r body c d answer ran id e
                          (owned key session_id id e own session srv.sessions hit at_key found
                            there)
                          ends))
            ]
      ]

  create-Survives :
      (params : Params) (srv srv' : Server) (reply : Reply) (session_id id : Bytes)
      (e : FeatureExecution)
      → create setting env params srv ≡ some (srv', reply)
      → env.random_id ≢ session_id
      → Survives session_id id e srv
      → Survives session_id id e srv'
  unfolding create
  create-Survives params srv srv' reply session_id id e h fresh (session, found, there) =
      let made = new_session setting env params in
      elim (Option-cases (session_json setting.utc setting.catalog made)) [
        | inl missing ↦ absurd (ground (arith, missing))
        | inr (text, written) ↦
            subst (Survives session_id id e)
              {x = record {
                sessions = assign env.random_id made srv.sessions;
                closed = srv.closed;
              }}
              {y = srv'} (ground (arith, written))
              (assign-Survives env.random_id session_id id e session made srv.sessions srv.closed
                found there (λ hit. absurd (fresh hit)))
      ]

  handle_route-Survives :
      (r : Route) (body : Bytes) (srv srv' : Server) (reply : Reply) (session_id id : Bytes)
      (e : FeatureExecution)
      → handle_route setting env r body srv ≡ some (srv', reply)
      → env.random_id ≢ session_id
      → is_terminal e.state ≡ true
      → Survives session_id id e srv
      → Survives session_id id e srv'
  unfolding handle_route
  handle_route-Survives index body srv srv' reply session_id id e h fresh ends s =
      subst (Survives session_id id e) {x = srv} {y = srv'} (ground arith) s
  handle_route-Survives health body srv srv' reply session_id id e h fresh ends s =
      subst (Survives session_id id e) {x = srv} {y = srv'} (ground arith) s
  handle_route-Survives features body srv srv' reply session_id id e h fresh ends s =
      subst (Survives session_id id e) {x = srv} {y = srv'} (ground arith) s
  handle_route-Survives unknown_route body srv srv' reply session_id id e h fresh ends s =
      subst (Survives session_id id e) {x = srv} {y = srv'} (ground arith) s
  handle_route-Survives create_session body srv srv' reply session_id id e h fresh ends s =
      elim (Outcome-cases (parse_simple_json_object body)) [
        | inl (text, p) ↦
            subst (Survives session_id id e) {x = srv} {y = srv'} (ground (arith, p)) s
        | inr (params, p) ↦
            create-Survives params srv srv' reply session_id id e (ground (arith, p)) fresh s
      ]
  handle_route-Survives (session_path key r) body srv srv' reply session_id id e h fresh ends s =
      with_session-Survives key r body srv srv' reply session_id id e h ends s

  -- Whatever a request does, a session that is there stays, and an execution of it that has passed,
  -- failed, timed out or been declared unsupported stays as it is, unless the request makes a session
  -- under the same id.
  pub handle_request-Survives :
      (request : HttpRequest) (srv srv' : Server) (reply : Reply) (session_id id : Bytes)
      (e : FeatureExecution)
      → handle_request setting env request srv ≡ some (srv', reply)
      → env.random_id ≢ session_id
      → is_terminal e.state ≡ true
      → Survives session_id id e srv
      → Survives session_id id e srv'
  unfolding handle_request
  handle_request-Survives request srv srv' reply session_id id e h fresh ends s =
      handle_route-Survives (route request.method request.path) request.body srv srv' reply
        session_id id e h fresh ends s

conclude-settled :
    (now : ℕ) (verdict : Verdict) (s : Slot)
    → is_terminal (s.execution.state) ≡ true
    → (conclude now verdict s).execution ≡ s.execution
unfolding conclude mark_failed mark_network_complete
conclude-settled now waiting s h = refl
conclude-settled now (fails text) s h = ground arith
conclude-settled now completes s h = ground arith

-- So does the end of a worker, of whatever feature: a worker that ends late changes no verdict.
pub finish_worker-Survives :
    (key feature_id : Bytes) (now : ℕ) (verdict : Verdict) (srv srv' : Server)
    (session_id id : Bytes) (e : FeatureExecution)
    → finish_worker key feature_id now verdict srv ≡ some srv'
    → is_terminal e.state ≡ true
    → Survives session_id id e srv
    → Survives session_id id e srv'
unfolding finish_worker
finish_worker-Survives key feature_id now verdict srv srv' session_id id e h ends
      (session, found, there) =
    elim (Option-cases (find key (srv.sessions))) [
      | inl missing ↦ absurd (ground (arith, missing))
      | inr (own, at_key) ↦
          let c : Scope = record { session = own; closed = srv.closed } in
          let run : Slot → Slot × Unit {0} = λ s. (conclude now verdict s, tt) in
          elim (Option-cases (on_feature feature_id run c)) [
            | inl missing ↦ absurd (ground (arith, at_key, missing))
            | inr ((d, answer), ran) ↦
                subst (Survives session_id id e)
                  {x = record { sessions = assign key d.session srv.sessions; closed = d.closed }}
                  {y = srv'} (ground (arith, at_key, ran))
                  (assign-Survives key session_id id e session d.session srv.sessions d.closed found
                    there
                    (λ hit.
                      on_feature-Settled feature_id run c d answer (conclude-settled now verdict)
                        ran id e
                        (owned key session_id id e own session srv.sessions hit at_key found there)
                        ends))
          ]
    ]
