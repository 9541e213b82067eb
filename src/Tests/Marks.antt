-- ===== src/Tests/Marks.antt =====
-- Runs on the slot of one feature.
use sctp_conformance.Base.{◌≡◌, ◌↔◌, ◌⊎◌, refl, arith, true, false, [], ◌∷◌, none, codes}
use sctp_conformance.Json.Value.{no_members}
use sctp_conformance.Json.Parser.{parse_json_root_object}
use sctp_conformance.Feature.{agent_reported, hybrid, pending, passed, timed_out}
use sctp_conformance.Session.{
  Slot, maybe_timeout, close_active_fds, mark_failed, mark_network_complete,
}
use sctp_conformance.Session.Invariant.{IsConsistent, IsMark}
use sctp_conformance.Api.Report.{
  complete_feature, unsupported_feature, read_assoc_ids, check_assoc_ids,
}
use sctp_conformance.Api.Start.{start_feature}
use sctp_conformance.Api.Steps.{complete_feature-IsMark}
use sctp_conformance.Api.Begin.{Answers, start_feature-Answers}
use sctp_conformance.Api.Verdicts.{
  verdict_stands, late_report_times_out, check_assoc_ids_iff, GoodPair, IdsAllowed,
  complete_feature_passes_iff,
}
use sctp_conformance.Tests.Data.{platform, options, kernel, no_utc, pair, slot, running}

complete_feature-IsMark_example :
    IsMark
      (running agent_reported)
      (complete_feature no_utc 7 8 (codes "{}") (running agent_reported)).0
complete_feature-IsMark_example =
    complete_feature-IsMark no_utc 7 8 (codes "{}") (running agent_reported)

-- A feature before its start.
abbrev fresh : Slot
fresh = slot hybrid pending [] []

fresh-IsConsistent : IsConsistent fresh.active_feature_id fresh.execution
fresh-IsConsistent = record {
  named = λ a. ground arith;
  live = λ a. ground arith;
  idle = λ a. refl;
  has_id = λ a. ground arith;
}

start_feature-Answers_example :
    Answers 2
      (maybe_timeout 1 fresh)
      (start_feature no_utc platform options 1 2 (λ _. kernel) fresh)
start_feature-Answers_example =
    start_feature-Answers no_utc platform options 1 2 (λ _. kernel) fresh fresh-IsConsistent

abbrev ended : Slot
ended = slot hybrid passed [] []

verdict_stands_example :
    (mark_failed 1 (codes "late") ended ≡ ended)
    × (mark_network_complete 1 ended ≡ ended)
    × (maybe_timeout 1 ended ≡ ended)
    × ((complete_feature no_utc 1 2 (codes "{}") ended).0 ≡ ended)
    × ((unsupported_feature no_utc 1 2 (codes "{}") ended).0 ≡ ended)
    × ((start_feature no_utc platform options 1 2 (λ _. kernel) ended).slot ≡ ended)
verdict_stands_example =
    verdict_stands no_utc platform options 1 2 (λ _. kernel) (codes "late") (codes "{}") ended refl

-- The server has seen the traffic in time, but the report comes at the deadline.
late_report_times_out_example :
    (complete_feature no_utc 100 101
      (codes "{}")
      (mark_network_complete 99 (running hybrid))).0.execution.state
    ≡ timed_out
unfolding mark_network_complete close_active_fds
late_report_times_out_example =
    late_report_times_out no_utc 100 101 (codes "{}") (mark_network_complete 99 (running hybrid))
      refl (ground arith)

check_assoc_ids_iff_example :
    (check_assoc_ids pair (codes "12" ∷ codes "7" ∷ []) ≡ none)
    ↔ GoodPair (codes "12" ∷ codes "7" ∷ [])
check_assoc_ids_iff_example = check_assoc_ids_iff pair (codes "12" ∷ codes "7" ∷ []) refl

complete_feature_passes_iff_example :
    ((complete_feature no_utc 7 8 (codes "{}") (running agent_reported)).0.execution.state ≡ passed)
    ↔ (((agent_reported ≡ agent_reported) ⊎ ((agent_reported ≡ hybrid) × (false ≡ true)))
        × IdsAllowed none [])
complete_feature_passes_iff_example =
    complete_feature_passes_iff no_utc 7 8 (codes "{}") no_members [] (running agent_reported)
      (unfold parse_json_root_object in refl) (unfold read_assoc_ids in refl) refl (ground arith)
      (λ c e. absurd (ground arith))
