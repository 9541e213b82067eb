-- ===== src/Server/Pages.antt =====
-- `FeaturesJson`, `SessionJson`, `SummaryJson` and the paths that they name.
use sctp_conformance.Base.{
  ℕ, suc, ◌+◌, Bool, true, false, ◌&&◌, List, [], ◌∷◌, ◌++◌, Option, none, some, ◌==◌, Bytes, codes,
  decimal,
}
use sctp_conformance.Text.{json_quote, json_bool}
use sctp_conformance.Contract.{concat, comma, mode_string, json_rfc_references}
use sctp_conformance.Feature.{
  FeatureDefinition, FeatureState, pending, active, passed, failed, unsupported, timed_out,
}
use sctp_conformance.Session.{FeatureExecution, Slot, maybe_timeout}
use sctp_conformance.Api.Json.{iso_time, feature_json}
use sctp_conformance.Server.State.{Features, Session, Scope, find, on_feature}

unfoldable pub dashboard_path : Bytes → Bytes
dashboard_path session_id = codes "/sessions/" ++ (session_id ++ codes "/dashboard")

unfoldable pub session_api_path : Bytes → Bytes
session_api_path session_id = codes "/v1/sessions/" ++ session_id

unfoldable pub summary_path : Bytes → Bytes
unfolding session_api_path
summary_path session_id = session_api_path session_id ++ codes "/summary"

unfoldable pub summary_stream_path : Bytes → Bytes
unfolding summary_path
summary_stream_path session_id = summary_path session_id ++ codes "/stream"

abbrev text : Bytes → Bytes → Bytes
text key value = key ++ json_quote value

-- The loop of `FeaturesJson`.
unfoldable pub features_from : Bool → List FeatureDefinition → Bytes
unfolding concat
features_from first [] = []
features_from first (d ∷ rest) =
    concat (
      comma first
      ∷ text (codes "{\"id\":") d.id
      ∷ text (codes ",\"title\":") d.title
      ∷ text (codes ",\"category\":") d.category
      ∷ text (codes ",\"summary\":") d.summary
      ∷ text (codes ",\"completion_mode\":") (mode_string d.completion_mode)
      ∷ codes ",\"manual_setup_required\":"
      ∷ json_bool d.manual_setup_required
      ∷ codes ",\"rfc_references\":"
      ∷ json_rfc_references d.rfc_references
      ∷ codes ",\"timeout_seconds\":"
      ∷ decimal d.timeout_seconds
      ∷ codes "}"
      ∷ [])
    ++ features_from false rest

unfoldable pub features_json : List FeatureDefinition → Bytes
unfolding features_from
features_json catalog =
    codes "{\"server\":\"sctp-feature-server\",\"features\":["
    ++ (features_from true catalog ++ codes "]}")

-- The six counters of `SummaryJson`.
pub record Counts : Type 0 where
  pub passed_count : ℕ
  pub failed_count : ℕ
  pub unsupported_count : ℕ
  pub timed_out_count : ℕ
  pub pending_count : ℕ
  pub active_count : ℕ

-- The `switch` of `SummaryJson`.
unfoldable pub count_state : FeatureState → Counts → Counts
count_state passed n = record n { passed_count = n.passed_count + 1 }
count_state failed n = record n { failed_count = n.failed_count + 1 }
count_state unsupported n = record n { unsupported_count = n.unsupported_count + 1 }
count_state timed_out n = record n { timed_out_count = n.timed_out_count + 1 }
count_state pending n = record n { pending_count = n.pending_count + 1 }
count_state active n = record n { active_count = n.active_count + 1 }

abbrev pub no_counts : Counts
no_counts = record {
  passed_count = 0;
  failed_count = 0;
  unsupported_count = 0;
  timed_out_count = 0;
  pending_count = 0;
  active_count = 0;
}

unfoldable pub is_complete : Counts → Bool
is_complete n = n.pending_count == 0 && n.active_count == 0

-- One round of `SummaryJson`: the deadline is checked, then the state is counted and written.
unfoldable pub summary_round : ℕ → Slot → Slot × FeatureExecution
summary_round now s = let t = maybe_timeout now s in (t, t.execution)

module _ (utc : ℕ → Bytes) where
  -- The loop of `SessionJson` over the catalog.
  unfoldable pub session_features_from : Bool → List FeatureDefinition → Features → Option Bytes
  session_features_from first [] features = some []
  session_features_from first (d ∷ rest) features = elim (find d.id features) [
    | none ↦ none
    | some e ↦ elim (session_features_from false rest features) [
      | none ↦ none
      | some later ↦ some (comma first ++ (feature_json utc e false ++ later))
    ]
  ]

  unfoldable pub session_json : List FeatureDefinition → Session → Option Bytes
  unfolding concat session_features_from
  session_json catalog session = elim (session_features_from true catalog session.features) [
    | none ↦ none
    | some features ↦ some (
        concat (
          text (codes "{\"session_id\":") session.id
          ∷ text (codes ",\"agent_name\":") session.agent_name
          ∷ text (codes ",\"environment_name\":") session.environment_name
          ∷ text (codes ",\"created_at\":") (iso_time utc session.created_at)
          ∷ text (codes ",\"active_feature_id\":") session.active_feature_id
          ∷ text (codes ",\"dashboard_path\":") (dashboard_path session.id)
          ∷ codes ",\"features\":["
          ∷ features
          ∷ codes "]}"
          ∷ []))
  ]

  -- The loop, with one reading of the clock for each feature.
  unfoldable pub summary_loop :
      (ℕ → ℕ) → ℕ → List FeatureDefinition → Counts → Scope → Option (Scope × (Counts × Bytes))
  unfolding summary_round count_state
  summary_loop clock i [] n c = some (c, (n, []))
  summary_loop clock i (d ∷ rest) n c = elim (on_feature d.id (summary_round (clock i)) c) [
    | none ↦ none
    | some (c', e) ↦ elim (summary_loop clock (suc i) rest (count_state e.state n) c') [
      | none ↦ none
      | some (c'', (n', later)) ↦
          some (c'', (n', comma (i == 0) ++ (feature_json utc e false ++ later)))
    ]
  ]

  unfoldable pub summary_text : Bytes → Counts → Bytes → Bytes
  unfolding concat is_complete
  summary_text session_id n features = concat (
      text (codes "{\"session_id\":") session_id
      ∷ codes ",\"passed\":"
      ∷ decimal n.passed_count
      ∷ codes ",\"failed\":"
      ∷ decimal n.failed_count
      ∷ codes ",\"unsupported\":"
      ∷ decimal n.unsupported_count
      ∷ codes ",\"timed_out\":"
      ∷ decimal n.timed_out_count
      ∷ codes ",\"pending\":"
      ∷ decimal n.pending_count
      ∷ codes ",\"active\":"
      ∷ decimal n.active_count
      ∷ codes ",\"pending_or_active\":"
      ∷ decimal (n.pending_count + n.active_count)
      ∷ codes ",\"complete\":"
      ∷ json_bool (is_complete n)
      ∷ codes ",\"features\":["
      ∷ features
      ∷ codes "]}"
      ∷ [])

  unfoldable pub summary_json : (ℕ → ℕ) → List FeatureDefinition → Scope → Option (Scope × Bytes)
  summary_json clock catalog c = elim (summary_loop clock 0 catalog no_counts c) [
    | none ↦ none
    | some (c', (n, features)) ↦ some (c', summary_text (c'.session.id) n features)
  ]
