-- ===== src/Tests/Races.antt =====
-- Two starts of two new features.
use sctp_conformance.Base.{◌≡◌, ◌⊎◌, refl, arith, List, [], ◌∷◌, codes}
use sctp_conformance.Feature.{agent_reported, agent_only, active}
use sctp_conformance.Session.{FeatureExecution, Slot, new_execution}
use sctp_conformance.Api.Races.{
  checking_session, answered_200, answered_409, Duel, duel, one_by_one, in_turns, two_starts_race,
  Side, left_call, right_call,
}
use sctp_conformance.Api.Schedules.{Settles, some_start_wins}
use sctp_conformance.Tests.Data.{feature}

abbrev fresh : FeatureExecution
fresh = new_execution (feature agent_reported agent_only)

abbrev calls : Duel
calls = record {
  active_feature_id = [];
  left = fresh;
  right = record fresh { definition = record (fresh.definition) { id = codes "g" } };
  left_at = checking_session;
  right_at = checking_session;
}

two_starts_race_example :
    (((duel 7 one_by_one calls).left_at ≡ answered_200)
      × ((duel 7 one_by_one calls).right_at ≡ answered_409)
      × ((duel 7 one_by_one calls).right ≡ calls.right))
    × (((duel 7 in_turns calls).left_at ≡ answered_200)
        × ((duel 7 in_turns calls).right_at ≡ answered_200)
        × ((duel 7 in_turns calls).left.state ≡ active)
        × ((duel 7 in_turns calls).right.state ≡ active))
unfolding new_execution
two_starts_race_example = two_starts_race 7 calls (refl, refl, refl, refl, refl) (λ e. ground arith)

abbrev slot_of_fresh : Slot
slot_of_fresh = record { active_feature_id = []; execution = fresh; closed = [] }

-- The right call overtakes between the checks of the left one.
abbrev overtaking : List Side
overtaking =
    left_call ∷ right_call ∷ right_call ∷ right_call ∷ right_call ∷ left_call ∷ left_call
    ∷ left_call ∷ []

some_start_wins_example :
    let e = duel 7 overtaking calls in
    Settles calls.left e.left e.left_at e.right_at
    × Settles calls.right e.right e.right_at e.left_at
    × (((e.active_feature_id ≡ calls.left.definition.id) × (e.left_at ≡ answered_200))
        ⊎ ((e.active_feature_id ≡ calls.right.definition.id) × (e.right_at ≡ answered_200)))
unfolding new_execution
some_start_wins_example =
    some_start_wins 7 overtaking calls (refl, refl, refl, refl, refl) (λ e. ground arith)
      (λ e. ground arith) (omega arith) (omega arith)
