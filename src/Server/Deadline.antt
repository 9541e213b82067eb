-- ===== src/Server/Deadline.antt =====
-- A poll of a feature whose deadline has passed.
use sctp_conformance.Base.{
  ℕ, ◌≤◌, ◌≡◌, ◌≢◌, refl, sym, ap, ◌∙◌, arith, List, [], ◌∷◌, some, Bytes, codes, bytes_eq,
  bytes_eq_iff, bytes_eq_self, Bool-cases, inl, inr, true,
}
use sctp_conformance.Http.{HttpRequest, response}
use sctp_conformance.Feature.{FeatureDefinition, active, timed_out}
use sctp_conformance.Session.{
  FeatureExecution, Slot, maybe_timeout, release, clear_active_feature, close_active_fds,
}
use sctp_conformance.Api.Verdicts.{maybe_timeout-late}
use sctp_conformance.Api.Json.{feature_json}
use sctp_conformance.Server.State.{
  Session, Server, Scope, slot_of, store_slot, find, assign, find_feature, on_feature,
}
use sctp_conformance.Server.Tables.{find-assign}
use sctp_conformance.Server.Invariant.{EntryOk}
use sctp_conformance.Server.Creation.{CatalogOk}
use sctp_conformance.Server.Route.{feature_info, feature_path}
use sctp_conformance.Server.Paths.{IsPart, feature_url, feature_paths_lead_back}
use sctp_conformance.Server.Requests.{
  Surroundings, Setting, Reply, plain, feature_request, on_session, with_session, handle_route,
  handle_request,
}
use sctp_conformance.Server.Reach.{request, Reach, next, reached}

find_feature-id :
    (id : Bytes) (catalog : List FeatureDefinition) (d : FeatureDefinition)
    → find_feature id catalog ≡ some d
    → d.id ≡ id
unfolding find_feature
find_feature-id id [] d h = absurd (ground arith)
find_feature-id id (x ∷ rest) d h = elim (Bool-cases (bytes_eq x.id id)) [
  | inl hit ↦ ground (arith, bytes_eq_iff x.id id)
  | inr miss ↦ find_feature-id id rest d (ground arith)
]

-- The deadline frees the session and closes the descriptors.
maybe_timeout-frees :
    (now : ℕ) (s : Slot)
    → s.execution.state ≡ active
    → s.execution.deadline_at ≤ now
    → s.active_feature_id ≡ s.execution.definition.id
    → ((maybe_timeout now s).active_feature_id ≡ [])
      × ((maybe_timeout now s).execution.active_fds ≡ [])
unfolding maybe_timeout release clear_active_feature close_active_fds
maybe_timeout-frees now s on late named =
    ground (arith, bytes_eq_iff s.active_feature_id s.execution.definition.id)

-- A session that names no feature has none active.
none_active :
    (active_id j : Bytes) (x : FeatureExecution)
    → EntryOk active_id (j, x)
    → active_id ≡ []
    → x.state ≢ active
none_active active_id j x h free = λ on. h.consistent.has_id (sym (h.consistent.named on) ∙ free)

-- The request of the poll.
abbrev pub poll : Bytes → Bytes → HttpRequest
poll session_id id = record {
  method = codes "GET";
  path = feature_url session_id id [];
  body = [];
  headers = [];
}

module _ (setting : Setting) (env : Surroundings) where
  -- The slot behind the check of the deadline.
  abbrev checked : Scope → FeatureExecution → Slot
  checked c e = maybe_timeout (env.clock 0) (slot_of c e)

  poll_found :
      (session_id id : Bytes) (srv : Server) (session : Session) (e : FeatureExecution)
      (d : FeatureDefinition)
      → find session_id (srv.sessions) ≡ some session
      → find_feature id setting.catalog ≡ some d
      → find d.id (session.features) ≡ some e
      → with_session setting env session_id
          (on_session setting env (feature_path id feature_info) [])
          srv
        ≡ (let c : Scope = record { session = session; closed = srv.closed } in
            let t = checked c e in
            let q = store_slot d.id t c in
            some (
              record { sessions = assign session_id (q.session) (srv.sessions); closed = q.closed },
              plain (response 200 (feature_json setting.utc t.execution true)),
            ))
  unfolding with_session on_session on_feature feature_request
  poll_found session_id id srv session e d found known there =
      rw (found, with_session) (rw (known, on_session) (rw (there, on_feature) refl))

  -- With a catalog whose ids are not empty and differ, in a reachable server: the first poll of an
  -- active feature at or after its deadline is answered, ends the feature as timed out with no
  -- descriptor held, and frees the session: it names no active feature and has none. Both ids are one
  -- part of a path, and the catalog has the feature.
  pub expired_feature_frees :
      (srv : Server) (session_id id : Bytes) (session : Session) (e : FeatureExecution)
      (d : FeatureDefinition)
      → CatalogOk setting.catalog
      → Reach setting srv
      → IsPart session_id
      → IsPart id
      → find session_id (srv.sessions) ≡ some session
      → find_feature id setting.catalog ≡ some d
      → find id (session.features) ≡ some e
      → e.state ≡ active
      → e.deadline_at ≤ env.clock 0
      → (srv' : Server) × (reply : Reply) × (after : Session) × (e' : FeatureExecution)
        × (handle_request setting env (poll session_id id) srv ≡ some (srv', reply))
        × (find session_id (srv'.sessions) ≡ some after)
        × (find id (after.features) ≡ some e')
        × (e'.state ≡ timed_out)
        × (e'.active_fds ≡ [])
        × (after.active_feature_id ≡ [])
        × ((j : Bytes) (x : FeatureExecution) → find j (after.features) ≡ some x → x.state ≢ active)
  unfolding handle_request handle_route
  expired_feature_frees srv session_id id session e d k r part part' found known there on late =
      let c : Scope = record { session = session; closed = srv.closed } in
      let t = checked c e in
      let q = store_slot d.id t c in
      let srv' : Server = record {
        sessions = assign session_id (q.session) (srv.sessions);
        closed = q.closed;
      } in
      let same = find_feature-id id setting.catalog d known in
      let named =
        (reached setting srv session_id session id e k r found there).consistent.named on in
      let freed = maybe_timeout-frees (env.clock 0) (slot_of c e) on late named in
      let answered =
        ap (λ x. handle_route setting env x [] srv)
          (feature_paths_lead_back session_id id part part').0
        ∙ poll_found session_id id srv session e d found known
            (ap (λ i. find i (session.features)) same ∙ there) in
      let found' =
        find-assign session_id session_id (q.session) (srv.sessions)
        ∙ rw (bytes_eq_self session_id) refl in
      (
        srv',
        _,
        q.session,
        t.execution,
        answered,
        found',
        find-assign d.id id t.execution (session.features)
            ∙ rw ((bytes_eq_iff d.id id).1 same) refl,
        maybe_timeout-late (env.clock 0) (slot_of c e) on late,
        freed.1,
        freed.0,
        λ j x at_j on_x.
            none_active (t.active_feature_id) j x
              (reached setting srv' session_id (q.session) j x k
                (next r (request env (poll session_id id) _ answered)) found' at_j)
              freed.0 on_x,
      )
