-- ===== src/Api/Races.antt =====
-- Two concurrent calls of `StartFeature` of server/freebsd_ref/main.cpp, on two features of one
-- session that only the agent reports on, step by step between the blocks under a lock.
use sctp_conformance.Base.{ℕ, ◌≡◌, ◌≢◌, ◌↔◌, arith, List, [], ◌∷◌, if◌then◌else◌, Bytes, is_empty}
use sctp_conformance.Feature.{pending, active, agent_only}
use sctp_conformance.Session.{
  FeatureExecution, Slot, is_pending, maybe_timeout, activate_execution, set_active_feature,
}
use sctp_conformance.Socket.{ServerOptions, KernelAnswers, Platform}
use sctp_conformance.Api.Start.{start_feature, start_kind, finish_start, set_contract, set_waiting}

-- Where a call stands: in front of one of its locked blocks, or at its answer.
pub data Progress : Type 0 where
  checking_session checking_state activating naming answered_200 answered_409 : Progress

-- The next block.
unfoldable pub start_step : ℕ → Progress → Slot → Slot × Progress
unfolding activate_execution set_active_feature
start_step now checking_session s =
    (s, (if is_empty s.active_feature_id then checking_state else answered_409))
start_step now checking_state s =
    (s, (if is_pending (s.execution.state) then activating else answered_409))
start_step now activating s = (activate_execution now s, naming)
start_step now naming s = (set_active_feature s, answered_200)
start_step now answered_200 s = (s, answered_200)
start_step now answered_409 s = (s, answered_409)

-- The session as far as the two calls see it.
pub record Duel : Type 0 where
  pub active_feature_id : Bytes
  pub left : FeatureExecution
  pub right : FeatureExecution
  pub left_at : Progress
  pub right_at : Progress

pub data Side : Type 0 where
  left_call right_call : Side

-- One call moves on by a block.
unfoldable pub duel_step : ℕ → Side → Duel → Duel
unfolding start_step
duel_step now left_call d =
    let (s, at) =
      start_step now d.left_at
        (record { active_feature_id = d.active_feature_id; execution = d.left; closed = [] }) in
    record d { active_feature_id = s.active_feature_id; left = s.execution; left_at = at }
duel_step now right_call d =
    let (s, at) =
      start_step now d.right_at
        (record { active_feature_id = d.active_feature_id; execution = d.right; closed = [] }) in
    record d { active_feature_id = s.active_feature_id; right = s.execution; right_at = at }

-- The calls move on in the given order.
unfoldable pub duel : ℕ → List Side → Duel → Duel
unfolding duel_step
duel now [] d = d
duel now (side ∷ sides) d = duel now sides (duel_step now side d)

-- Both calls have just been made.
abbrev pub IsFresh : Duel → Type 0
IsFresh d =
    (d.active_feature_id ≡ [])
    × (d.left.state ≡ pending)
    × (d.right.state ≡ pending)
    × (d.left_at ≡ checking_session)
    × (d.right_at ≡ checking_session)

abbrev pub one_by_one : List Side
one_by_one =
    left_call ∷ left_call ∷ left_call ∷ left_call ∷ right_call ∷ right_call ∷ right_call
    ∷ right_call ∷ []

abbrev pub in_turns : List Side
in_turns =
    left_call ∷ right_call ∷ left_call ∷ right_call ∷ left_call ∷ right_call ∷ left_call
    ∷ right_call ∷ []

-- Two calls have just been made on two pending features of a session with no active one, and the
-- first feature has an id. If the calls run one after the other, the second is refused, its feature
-- is unchanged, and the first answers 200; with their blocks in turns, both answer 200 and both
-- features are active.
pub two_starts_race :
    (now : ℕ) (d : Duel)
    → IsFresh d
    → d.left.definition.id ≢ []
    → (((duel now one_by_one d).left_at ≡ answered_200)
        × ((duel now one_by_one d).right_at ≡ answered_409)
        × ((duel now one_by_one d).right ≡ d.right))
      × (((duel now in_turns d).left_at ≡ answered_200)
          × ((duel now in_turns d).right_at ≡ answered_200)
          × ((duel now in_turns d).left.state ≡ active)
          × ((duel now in_turns d).right.state ≡ active))
unfolding duel duel_step start_step activate_execution set_active_feature
two_starts_race now d f ne = ground arith

-- A call that nothing interrupts: four blocks are enough.
unfoldable pub start_alone : ℕ → Slot → Slot × Progress
unfolding start_step
start_alone now s =
    let (a, p) = start_step now checking_session s in
    let (b, q) = start_step now p a in let (c, r) = start_step now q b in start_step now r c

-- The blocks of one call that nothing interrupts make up `StartFeature` on a feature without
-- traffic: they answer 200 on the same slots, 409 on all others, and leave the same state, deadline
-- and active feature.
pub start_alone_as_start_feature :
    (utc : ℕ → Bytes) (platform : Platform) (options : ServerOptions) (checked_at started_at : ℕ)
    (kernel : ℕ → KernelAnswers) (s : Slot)
    → (maybe_timeout checked_at s).execution.definition.scenario_kind ≡ agent_only
    → let r = start_feature utc platform options checked_at started_at kernel s in
      let a = start_alone started_at (maybe_timeout checked_at s) in
      ((r.response.status ≡ 200) ↔ (a.1 ≡ answered_200))
      × ((r.response.status ≡ 409) ↔ (a.1 ≡ answered_409))
      × (r.slot.active_feature_id ≡ a.0.active_feature_id)
      × (r.slot.execution.state ≡ a.0.execution.state)
      × (r.slot.execution.deadline_at ≡ a.0.execution.deadline_at)
unfolding start_alone start_step start_feature start_kind finish_start set_contract set_waiting
    activate_execution set_active_feature
start_alone_as_start_feature utc platform options checked_at started_at kernel s k = ground arith
