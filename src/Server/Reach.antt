-- ===== src/Server/Reach.antt =====
-- The servers that requests and ends of workers, each run as a whole, lead to.
use mathlib.Core.Path.{subst}
use sctp_conformance.Base.{
  ℕ, ◌≡◌, inl, inr, sym, ◌∙◌, arith, true, ◌⊎◌, List, [], Option, none, some, Bytes, Option-cases,
}
use sctp_conformance.Http.{HttpRequest}
use sctp_conformance.Feature.{FeatureDefinition, server_observed, agent_reported, active, passed}
use sctp_conformance.Session.{FeatureExecution, Slot}
use sctp_conformance.Session.Invariant.{IsMark, IsMark-refl}
use sctp_conformance.Session.Marks.{mark_failed-IsMark, mark_network_complete-IsMark}
use sctp_conformance.Worker.{Verdict, waiting, fails, completes, conclude}
use sctp_conformance.Server.State.{Session, Server, Scope, find, assign, on_feature}
use sctp_conformance.Server.Tables.{All-find, All-assign_same}
use sctp_conformance.Server.Invariant.{EntryOk, SessionOk, Lands, Lands-elim, Kept, on_feature-Kept}
use mathlib.Core.Path.{subst}
use sctp_conformance.Server.Creation.{CatalogOk}
use sctp_conformance.Server.Handling.{ServerOk, handle_request-ServerOk}
use sctp_conformance.Server.Requests.{Surroundings, Setting, Reply, handle_request}

-- The end of a worker that a start left running for a feature of a session.
unfoldable pub finish_worker : Bytes → Bytes → ℕ → Verdict → Server → Option Server
unfolding find assign
finish_worker session_id feature_id now verdict srv = elim (find session_id (srv.sessions)) [
  | none ↦ none
  | some session ↦
      elim (on_feature feature_id (λ s. (conclude now verdict s, tt {0}))
        (record { session = session; closed = srv.closed })) [
          | none ↦ none
          | some (c, _) ↦ some (record {
            sessions = assign session_id (c.session) (srv.sessions);
            closed = c.closed;
          })
        ]
]

conclude-IsMark : (now : ℕ) (verdict : Verdict) (s : Slot) → IsMark s (conclude now verdict s)
unfolding conclude
conclude-IsMark now waiting s = IsMark-refl s
conclude-IsMark now (fails text) s = mark_failed-IsMark now text s
conclude-IsMark now completes s = mark_network_complete-IsMark now s

abbrev pub initial : Server
initial = record { sessions = []; closed = [] }

module _ (setting : Setting) where
  pub data Step : Server → Server → Type 0 where
    request :
        {srv srv' : Server} (env : Surroundings) (r : HttpRequest) (reply : Reply)
        → handle_request setting env r srv ≡ some (srv', reply)
        → Step srv srv'
    worker_ends :
        {srv srv' : Server} (session_id feature_id : Bytes) (now : ℕ) (verdict : Verdict)
        → finish_worker session_id feature_id now verdict srv ≡ some srv'
        → Step srv srv'

  pub data Reach : Server → Type 0 where
    start : Reach initial
    next : {srv srv' : Server} → Reach srv → Step srv srv' → Reach srv'

module _ (catalog : List FeatureDefinition) where
  -- A worker's end, once its session and its feature are found.
  finish_found :
      (session_id feature_id : Bytes) (now : ℕ) (verdict : Verdict) (srv : Server)
      (session : Session) (e : FeatureExecution)
      → ServerOk catalog srv
      → find session_id (srv.sessions) ≡ some session
      → find feature_id (session.features) ≡ some e
      → Lands (ServerOk catalog) (finish_worker session_id feature_id now verdict srv)
  unfolding finish_worker
  finish_found session_id feature_id now verdict srv session e h found there =
      let c : Scope = record { session = session; closed = srv.closed } in
      let run : Slot → Slot × Unit {0} = λ s. (conclude now verdict s, tt) in
      let good : SessionOk catalog session =
        All-find (λ s. SessionOk catalog s.1) session_id session (srv.sessions) h found in
      let (q, f, kept) =
        Lands-elim (λ (q : Scope × Unit {0}). Kept catalog (session.features) q.0)
          (on_feature feature_id run c)
          (on_feature-Kept catalog feature_id run c good (e, there)
            (λ s _. (conclude-IsMark now verdict s).step)) in
      rw (found, finish_worker)
        (rw (f, finish_worker)
          (All-assign_same (λ s. SessionOk catalog s.1) session_id (q.0.session) (srv.sessions)
            (λ _. kept.ok) h))

  finish_worker-ServerOk :
      (session_id feature_id : Bytes) (now : ℕ) (verdict : Verdict) (srv srv' : Server)
      → ServerOk catalog srv
      → finish_worker session_id feature_id now verdict srv ≡ some srv'
      → ServerOk catalog srv'
  unfolding finish_worker on_feature
  finish_worker-ServerOk session_id feature_id now verdict srv srv' h e =
      elim (Option-cases (find session_id (srv.sessions))) [
        | inl missing ↦ absurd (ground (arith, missing))
        | inr (session, found) ↦ elim (Option-cases (find feature_id (session.features))) [
          | inl missing ↦ absurd (ground (arith, found, missing))
          | inr (x, there) ↦
              subst (Lands (ServerOk catalog)) e
                (finish_found session_id feature_id now verdict srv session x h found there)
        ]
      ]

module _ (setting : Setting) where
  Step-ServerOk :
      (srv srv' : Server)
      → CatalogOk setting.catalog
      → ServerOk setting.catalog srv
      → Step setting srv srv'
      → ServerOk setting.catalog srv'
  Step-ServerOk srv srv' k h (request env r reply e) =
      subst (Lands (λ p. ServerOk setting.catalog p.0)) e
        (handle_request-ServerOk setting env r srv k h)
  Step-ServerOk srv srv' k h (worker_ends session_id feature_id now verdict e) =
      finish_worker-ServerOk setting.catalog session_id feature_id now verdict srv srv' h e

  pub Reach-ServerOk :
      (srv : Server) → CatalogOk setting.catalog → Reach setting srv → ServerOk setting.catalog srv
  Reach-ServerOk srv k start = tt
  Reach-ServerOk srv k (next {srv = before} r s) =
      Step-ServerOk before srv k (Reach-ServerOk before k r) s

  -- The entry of a feature in a session of a reachable server.
  pub reached :
      (srv : Server) (session_id : Bytes) (session : Session) (id : Bytes) (e : FeatureExecution)
      → CatalogOk setting.catalog
      → Reach setting srv
      → find session_id (srv.sessions) ≡ some session
      → find id (session.features) ≡ some e
      → EntryOk (session.active_feature_id) (id, e)
  reached srv session_id session id e k r found there =
      All-find (EntryOk (session.active_feature_id)) id e (session.features)
        (All-find (λ s. SessionOk setting.catalog s.1) session_id session (srv.sessions)
          (Reach-ServerOk srv k r) found).entries
        there

  -- With a catalog whose ids are not empty and differ: in every reachable server, two active
  -- features of one session are the same feature, and `active_feature_id` names it.
  pub one_active_feature :
      (srv : Server) (session_id : Bytes) (session : Session) (i j : Bytes) (a b : FeatureExecution)
      → CatalogOk setting.catalog
      → Reach setting srv
      → find session_id (srv.sessions) ≡ some session
      → find i (session.features) ≡ some a
      → find j (session.features) ≡ some b
      → a.state ≡ active
      → b.state ≡ active
      → (i ≡ j) × (session.active_feature_id ≡ i)
  one_active_feature srv session_id session i j a b k r found at_i at_j on_a on_b =
      let x = reached srv session_id session i a k r found at_i in
      let y = reached srv session_id session j b k r found at_j in
      let is_i = x.consistent.named on_a ∙ x.under_id in
      let is_j = y.consistent.named on_b ∙ y.under_id in (sym is_i ∙ is_j, is_i)

  -- With a catalog whose ids are not empty and differ: in every reachable server, a feature that
  -- passed was observed by the server unless the agent alone decides it, and was reported by the
  -- agent unless the server alone decides it; and it holds no descriptor.
  pub passed_is_justified :
      (srv : Server) (session_id : Bytes) (session : Session) (id : Bytes) (e : FeatureExecution)
      → CatalogOk setting.catalog
      → Reach setting srv
      → find session_id (srv.sessions) ≡ some session
      → find id (session.features) ≡ some e
      → e.state ≡ passed
      → ((e.definition.completion_mode ≡ agent_reported) ⊎ (e.network_complete ≡ true))
        × ((e.definition.completion_mode ≡ server_observed) ⊎ (e.agent_complete ≡ true))
        × (e.active_fds ≡ [])
  passed_is_justified srv session_id session id e k r found there p =
      let x = reached srv session_id session id e k r found there in
      ground (
        arith, p, x.consistent.idle, x.justified.observed, x.justified.reported,
        x.justified.both_observed, x.justified.both_reported,
      )
