-- ===== src/Server/Safety.antt =====
-- The requests on one session and the invariant of that session.
use sctp_conformance.Base.{ℕ, suc, arith, Bool, true, false, List, [], ◌∷◌, Bytes}
use sctp_conformance.Feature.{FeatureDefinition}
use sctp_conformance.Session.{FeatureExecution, Slot}
use sctp_conformance.Session.Invariant.{IsConsistent, IsStep, IsMark-refl}
use sctp_conformance.Session.Marks.{maybe_timeout-IsMark}
use sctp_conformance.Api.Steps.{complete_feature-IsMark, unsupported_feature-IsMark}
use sctp_conformance.Api.Begin.{start_feature-IsStep}
use sctp_conformance.Server.State.{Features, Session, Scope, on_feature}
use sctp_conformance.Server.Pages.{
  Counts, no_counts, count_state, session_features_from, session_json, summary_round, summary_loop,
  summary_json,
}
use sctp_conformance.Server.Invariant.{
  SessionOk, AllHave, Lands, Lands-elim, Kept, Kept-AllHave, on_feature-Kept,
}
use sctp_conformance.Server.Route.{
  FeatureRoute, feature_start, feature_complete, feature_unsupported,
}
use sctp_conformance.Server.Requests.{Surroundings, Setting, feature_request}

session_features_from_total :
    (utc : ℕ → Bytes) (first : Bool) (catalog : List FeatureDefinition) (fs : Features)
    → AllHave catalog fs
    → Lands (λ _. Unit) (session_features_from utc first catalog fs)
unfolding session_features_from
session_features_from_total utc first [] fs h = tt
session_features_from_total utc first (d ∷ rest) fs h =
    ground (arith, h.0.1, session_features_from_total utc false rest fs h.1)

pub session_json_total :
    (utc : ℕ → Bytes) (catalog : List FeatureDefinition) (session : Session)
    → AllHave catalog session.features
    → Lands (λ _. Unit) (session_json utc catalog session)
unfolding session_json
session_json_total utc catalog session h =
    ground (arith, session_features_from_total utc true catalog session.features h)

-- The routes of a feature are steps of it.
pub feature_request-IsStep :
    (setting : Setting) (env : Surroundings) (r : FeatureRoute) (body : Bytes) (s : Slot)
    → IsConsistent s.active_feature_id s.execution
    → IsStep s (feature_request setting env r body s).0
unfolding feature_request
feature_request-IsStep setting env feature_start body s c = start_feature-IsStep _ _ _ _ _ _ s c
feature_request-IsStep setting env feature_complete body s c =
    (complete_feature-IsMark _ _ _ body s).step
feature_request-IsStep setting env feature_unsupported body s c =
    (unsupported_feature-IsMark _ _ _ body s).step
feature_request-IsStep setting env _ body s c = (IsMark-refl s).step

summary_round-IsStep : (now : ℕ) (s : Slot) → IsStep s (summary_round now s).0
unfolding summary_round
summary_round-IsStep now s = (maybe_timeout-IsMark now s).step

module _ (catalog : List FeatureDefinition) where
  summary_loop-SessionOk :
      (utc : ℕ → Bytes) (clock : ℕ → ℕ) (i : ℕ) (rest : List FeatureDefinition) (n : Counts)
      (c : Scope)
      → SessionOk catalog (c.session)
      → AllHave rest (c.session.features)
      → Lands (λ r. SessionOk catalog (r.0.session)) (summary_loop utc clock i rest n c)
  unfolding summary_loop
  summary_loop-SessionOk utc clock i [] n c inv h = inv
  summary_loop-SessionOk utc clock i (d ∷ rest) n c inv h =
      let round : Slot → Slot × FeatureExecution = summary_round (clock i) in
      let (r, e, kept) =
        Lands-elim (λ (r : Scope × FeatureExecution). Kept catalog (c.session.features) r.0)
          (on_feature d.id round c)
          (on_feature-Kept catalog d.id round c inv h.0
            (λ s _. summary_round-IsStep (clock i) s)) in
      let n' : Counts = count_state r.1.state n in
      let (q, f, later) =
        Lands-elim (λ (q : Scope × (Counts × Bytes)). SessionOk catalog (q.0.session))
          (summary_loop utc clock (suc i) rest n' r.0)
          (summary_loop-SessionOk utc clock (suc i) rest n' r.0 kept.ok
            (Kept-AllHave catalog rest _ r.0 kept h.1)) in
      rw (e, summary_loop) (rw (f, summary_loop) later)

  pub summary_json-SessionOk :
      (utc : ℕ → Bytes) (clock : ℕ → ℕ) (c : Scope)
      → SessionOk catalog (c.session)
      → Lands (λ r. SessionOk catalog (r.0.session)) (summary_json utc clock catalog c)
  unfolding summary_json
  summary_json-SessionOk utc clock c inv =
      let (q, f, later) =
        Lands-elim (λ (q : Scope × (Counts × Bytes)). SessionOk catalog (q.0.session))
          (summary_loop utc clock 0 catalog no_counts c)
          (summary_loop-SessionOk utc clock 0 catalog no_counts c inv inv.complete) in
      rw (f, summary_json) later
