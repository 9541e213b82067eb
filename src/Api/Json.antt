-- ===== src/Api/Json.antt =====
-- `iso_time`, `FeatureJsonLocked` and `FeatureJson`.
use sctp_conformance.Base.{
  ℕ, ◌/◌, Bool, ◌&&◌, not, [], ◌∷◌, ◌++◌, ◌==◌, if◌then◌else◌, Bytes, codes, is_empty,
}
use sctp_conformance.Text.{json_quote, json_bool, json_array_strings}
use sctp_conformance.Contract.{concat, mode_string, state_string, json_rfc_references}
use sctp_conformance.Session.{FeatureExecution, second}

-- `gmtime_r` and `put_time` on a `time_t` are the platform's.
module _ (utc : ℕ → Bytes) where
  unfoldable pub iso_time : ℕ → Bytes
  iso_time point = if point == 0 then [] else utc (point / second)

  abbrev text : Bytes → Bytes → Bytes
  text key value = key ++ json_quote value

  unfoldable pub feature_json : FeatureExecution → Bool → Bytes
  unfolding concat iso_time
  feature_json e include_contract = concat (
      text (codes "{\"id\":") e.definition.id
      ∷ text (codes ",\"title\":") e.definition.title
      ∷ text (codes ",\"category\":") e.definition.category
      ∷ text (codes ",\"completion_mode\":") (mode_string e.definition.completion_mode)
      ∷ codes ",\"manual_setup_required\":"
      ∷ json_bool e.definition.manual_setup_required
      ∷ codes ",\"manual_setup_instructions\":"
      ∷ json_array_strings e.definition.manual_setup_instructions
      ∷ codes ",\"rfc_references\":"
      ∷ json_rfc_references e.definition.rfc_references
      ∷ text (codes ",\"state\":") (state_string e.state)
      ∷ text (codes ",\"message\":") e.message
      ∷ text (codes ",\"started_at\":") (iso_time e.started_at)
      ∷ text (codes ",\"deadline_at\":") (iso_time e.deadline_at)
      ∷ text (codes ",\"finished_at\":") (iso_time e.finished_at)
      ∷ text (codes ",\"evidence_kind\":") e.evidence_kind
      ∷ text (codes ",\"evidence_text\":") e.evidence_text
      ∷ text (codes ",\"report_text\":") e.report_text
      ∷ codes ",\"assoc_ids\":"
      ∷ json_array_strings e.assoc_ids
      ∷ (if include_contract && not (is_empty e.contract_json)
          then codes ",\"contract\":" ++ e.contract_json
          else [])
      ∷ codes "}"
      ∷ [])
