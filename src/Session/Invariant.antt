-- ===== src/Session/Invariant.antt =====
-- The invariant of a slot, and the steps that the functions of server/freebsd_ref/main.cpp take.
use sctp_conformance.Base.{
  Bool, not, ◌≡◌, ◌≢◌, refl, true, false, ◌⊎◌, inl, List, [], ◌++◌, arith, Bytes, bytes_eq_iff,
  append-nil, ◌∙◌,
}
use sctp_conformance.Base.Int.{ℤ}
use sctp_conformance.Session.{
  FeatureExecution, Slot, closable, close_active_fds, release, is_pending, is_active,
}
use sctp_conformance.Feature.{
  server_observed, agent_reported, hybrid, FeatureState, pending, active, passed, failed,
  unsupported, timed_out,
}

-- An execution is active exactly while the session names it, and only then holds descriptors.
pub record IsConsistent (active_id : Bytes) (e : FeatureExecution) : Type 0 where
  pub named : e.state ≡ active → active_id ≡ e.definition.id
  pub live : active_id ≡ e.definition.id → e.state ≡ active
  pub idle : e.state ≢ active → e.active_fds ≡ []
  pub has_id : e.definition.id ≢ []

-- What a `passed` execution has seen, by its completion mode; and nothing is recorded before the
-- start.
pub record IsJustified (e : FeatureExecution) : Type 0 where
  pub observed :
      e.state ≡ passed → e.definition.completion_mode ≡ server_observed → e.network_complete ≡ true
  pub reported :
      e.state ≡ passed → e.definition.completion_mode ≡ agent_reported → e.agent_complete ≡ true
  pub both_observed :
      e.state ≡ passed → e.definition.completion_mode ≡ hybrid → e.network_complete ≡ true
  pub both_reported :
      e.state ≡ passed → e.definition.completion_mode ≡ hybrid → e.agent_complete ≡ true

-- The life of an execution.
pub data Transition : FeatureState → FeatureState → Type 0 where
  stay : {a : FeatureState} → Transition a a
  start : Transition pending active
  pass : Transition active passed
  fail : Transition active failed
  time_out : Transition active timed_out
  decline : Transition pending unsupported
  abandon : Transition active unsupported

-- The same as a test.
abbrev pub may_follow : FeatureState → FeatureState → Bool
may_follow pending pending = true
may_follow pending active = true
may_follow pending unsupported = true
may_follow active b = not (is_pending b)
may_follow passed passed = true
may_follow failed failed = true
may_follow unsupported unsupported = true
may_follow timed_out timed_out = true
may_follow _ _ = false

pub may_follow-Transition : (a b : FeatureState) → may_follow a b ≡ true → Transition a b
may_follow-Transition pending pending h = stay
may_follow-Transition pending active h = start
may_follow-Transition pending unsupported h = decline
may_follow-Transition active active h = stay
may_follow-Transition active passed h = pass
may_follow-Transition active failed h = fail
may_follow-Transition active timed_out h = time_out
may_follow-Transition active unsupported h = abandon
may_follow-Transition passed passed h = stay
may_follow-Transition failed failed h = stay
may_follow-Transition unsupported unsupported h = stay
may_follow-Transition timed_out timed_out h = stay
may_follow-Transition _ _ h = cc

-- How an operation on the feature `id` may change `active_feature_id`.
abbrev pub Moves : Bytes → Bytes → Bytes → Type 0
Moves id before after =
    (after ≡ before) ⊎ ((before ≡ id) × (after ≡ [])) ⊎ ((before ≡ []) × (after ≡ id))

-- The descriptors closed so far, and those still held.
abbrev pub accounted : Slot → List ℤ
accounted s = s.closed ++ closable (s.execution.active_fds)

-- A step of one feature: the definition stays, the state follows `Transition`, and only this
-- feature's name is put in or taken out.
pub record IsStep (s t : Slot) : Type 0 where
  pub same_definition : t.execution.definition ≡ s.execution.definition
  pub moves : Moves (s.execution.definition.id) s.active_feature_id t.active_feature_id
  pub follows : may_follow (s.execution.state) (t.execution.state) ≡ true
  pub consistent :
      IsConsistent s.active_feature_id s.execution → IsConsistent t.active_feature_id t.execution
  pub justified : IsJustified s.execution → IsJustified t.execution

-- One that neither opens nor loses a descriptor.
pub record IsMark (s t : Slot) : Type 0 where
  pub step : IsStep s t
  pub open step use *
  pub same_fds : accounted t ≡ accounted s

pub IsMark-refl : (s : Slot) → IsMark s s
IsMark-refl s = record {
  step = record {
    same_definition = refl;
    moves = inl refl;
    follows = ground arith;
    consistent = λ c. c;
    justified = λ j. j;
  };
  same_fds = refl;
}

-- Every way to end a feature goes through `release`: the new execution may differ in all but its
-- definition and descriptors, if its state is terminal.
pub release-IsMark :
    (s : Slot) (e : FeatureExecution)
    → e.definition ≡ s.execution.definition
    → e.active_fds ≡ s.execution.active_fds
    → may_follow (s.execution.state) e.state ≡ true
    → is_active e.state ≡ false
    → (IsJustified s.execution → IsJustified e)
    → IsMark s (release (record s { execution = e }))
unfolding release
release-IsMark s e d f m a j = record {
  step = record {
    same_definition = ground arith;
    moves = ground (arith, bytes_eq_iff s.active_feature_id s.execution.definition.id);
    follows = ground arith;
    consistent = λ c. ground (arith, bytes_eq_iff s.active_feature_id s.execution.definition.id);
    justified = λ c. ground (arith, j c);
  };
  same_fds = ground (arith, append-nil (s.closed ++ closable (s.execution.active_fds)));
}

-- A change of the execution that keeps its state and its descriptors.
pub keep-IsMark :
    (s : Slot) (e : FeatureExecution)
    → e.definition ≡ s.execution.definition
    → e.active_fds ≡ s.execution.active_fds
    → e.state ≡ s.execution.state
    → (IsJustified s.execution → IsJustified e)
    → IsMark s (record s { execution = e })
keep-IsMark s e d f a j = record {
  step = record {
    same_definition = d;
    moves = inl refl;
    follows = ground arith;
    consistent = λ c. ground arith;
    justified = λ c. ground (arith, j c);
  };
  same_fds = ground arith;
}

-- The same, with the descriptors closed.
pub close-IsMark :
    (s : Slot) (e : FeatureExecution)
    → e.definition ≡ s.execution.definition
    → e.active_fds ≡ s.execution.active_fds
    → e.state ≡ s.execution.state
    → (IsJustified s.execution → IsJustified e)
    → IsMark s (close_active_fds (record s { execution = e }))
unfolding close_active_fds
close-IsMark s e d f a j = record {
  step = record {
    same_definition = d;
    moves = inl refl;
    follows = ground arith;
    consistent = λ c. ground arith;
    justified = λ c. ground (arith, j c);
  };
  same_fds = ground (arith, append-nil (s.closed ++ closable (s.execution.active_fds)));
}

may_follow_trans :
    (a b c : FeatureState)
    → may_follow a b ≡ true
    → may_follow b c ≡ true
    → (a ≡ pending → b ≡ pending)
    → may_follow a c ≡ true
may_follow_trans a b c h k p = ground arith

-- Steps compose, if the first does not start the feature.
pub IsStep-trans :
    (s t u : Slot)
    → (s.execution.state ≡ pending → t.execution.state ≡ pending)
    → IsStep s t
    → IsStep t u
    → IsStep s u
IsStep-trans s t u p h k = record {
  same_definition = ground arith;
  moves = ground arith;
  follows =
      may_follow_trans (s.execution.state) (t.execution.state) (u.execution.state) h.follows
        k.follows p;
  consistent = λ c. k.consistent (h.consistent c);
  justified = λ c. k.justified (h.justified c);
}

pub IsMark-trans :
    (s t u : Slot)
    → (s.execution.state ≡ pending → t.execution.state ≡ pending)
    → IsMark s t
    → IsMark t u
    → IsMark s u
IsMark-trans s t u p h k = record {
  step = IsStep-trans s t u p h.step k.step;
  same_fds = k.same_fds ∙ h.same_fds;
}
