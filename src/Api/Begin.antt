-- ===== src/Api/Begin.antt =====
-- What a slot looks like behind `StartFeature`.
use sctp_conformance.Base.{ℕ, ◌+◌, ◌*◌, ◌≡◌, refl, sym, ◌⊎◌, inr, List, [], ◌∷◌, arith, Bytes}
use sctp_conformance.Base.Int.{ℤ}
use sctp_conformance.Session.{
  FeatureExecution, Slot, second, maybe_timeout, activate_execution, set_active_feature,
  set_active_fds, set_active_fd,
}
use sctp_conformance.Session.Invariant.{IsConsistent, IsStep, IsStep-trans}
use sctp_conformance.Session.Marks.{maybe_timeout-IsMark, maybe_timeout-pending}
use sctp_conformance.Feature.{
  ScenarioKind, agent_only, receive_messages, receive_messages_multi_target, send_after_trigger,
  receive_pr_messages, pending, active,
}
use sctp_conformance.Socket.{ServerOptions, KernelAnswers, Platform, Attempt, opened, refused}
use sctp_conformance.Worker.{
  Worker, no_worker, receive_worker, pr_receive_worker, receive_multi_target_worker,
  send_after_trigger_worker,
}
use sctp_conformance.Api.Start.{
  Started, Targets, target_count, open_targets, all_open, none_open, finish_start, start_on,
  start_single, start_on_targets, start_multi_target, start_kind, start_feature,
}

-- The descriptors that a worker is handed.
abbrev pub worker_fds : Worker → List ℤ
worker_fds no_worker = []
worker_fds (receive_worker fd _ _) = fd ∷ []
worker_fds (pr_receive_worker fd _) = fd ∷ []
worker_fds (receive_multi_target_worker fds _) = fds
worker_fds (send_after_trigger_worker fd _ _) = fd ∷ []

-- What the slot looks like behind an answer. With 200 the feature runs: it is the session's active
-- feature, its deadline is its timeout away, it holds what its worker reads from, and nothing was
-- closed. With 409 the execution and the active feature are as before, and there is no worker.
abbrev pub Answers : ℕ → Slot → Started → Type 0
Answers started_at s r =
    ((r.response.status ≡ 200)
      × (r.slot.execution.state ≡ active)
      × (r.slot.active_feature_id ≡ s.execution.definition.id)
      × (r.slot.execution.started_at ≡ started_at)
      × (r.slot.execution.deadline_at
          ≡ started_at + s.execution.definition.timeout_seconds * second)
      × (r.slot.execution.active_fds ≡ worker_fds r.worker)
      × (r.slot.execution.definition ≡ s.execution.definition)
      × (r.slot.closed ≡ s.closed)
      × (s.execution.state ≡ pending)
      × (s.active_feature_id ≡ []))
    ⊎ ((r.response.status ≡ 409)
        × (r.slot.execution ≡ s.execution)
        × (r.slot.active_feature_id ≡ s.active_feature_id)
        × (r.worker ≡ no_worker))

Answers-IsStep :
    (started_at : ℕ) (s : Slot) (r : Started)
    → IsConsistent s.active_feature_id s.execution
    → Answers started_at s r
    → IsStep s r.slot
Answers-IsStep started_at s r c h = record {
  same_definition = ground arith;
  moves = ground arith;
  follows = ground arith;
  consistent = λ _. record {
    named = λ a. ground (arith, c.named);
    live = λ a. ground (arith, c.live);
    idle = λ a. ground (arith, c.idle);
    has_id = ground (arith, c.has_id);
  };
  justified = λ j. record {
    observed = ground (arith, j.observed);
    reported = ground (arith, j.reported);
    both_observed = ground (arith, j.both_observed);
    both_reported = ground (arith, j.both_reported);
  };
}

module _ (utc : ℕ → Bytes) (platform : Platform) (options : ServerOptions) where
  -- The contract and the waiting message change nothing else.
  finish_start-Answers :
      (started_at : ℕ) (addrs : List Bytes) (thread : Worker) (s : Slot) (e : FeatureExecution)
      → s.execution.state ≡ pending
      → s.active_feature_id ≡ []
      → e.definition ≡ s.execution.definition
      → e.state ≡ active
      → e.started_at ≡ started_at
      → e.deadline_at ≡ started_at + s.execution.definition.timeout_seconds * second
      → e.active_fds ≡ worker_fds thread
      → Answers started_at s (
          finish_start utc platform options addrs thread
            (set_active_feature (record s { execution = e })))
  unfolding finish_start set_active_feature
  finish_start-Answers started_at addrs thread s e p a d st n dl f = ground arith

  start_on-Answers :
      (started_at : ℕ) (thread : ℤ → Worker) (s : Slot) (attempt : Attempt)
      → ((fd : ℤ) → worker_fds (thread fd) ≡ fd ∷ [])
      → s.execution.state ≡ pending
      → s.active_feature_id ≡ []
      → Answers started_at s (start_on utc platform options started_at thread s attempt)
  unfolding start_on set_active_fd activate_execution
  start_on-Answers started_at thread s (refused e fds) w p a = inr (refl, refl, refl, refl)
  start_on-Answers started_at thread s (opened socket) w p a =
      finish_start-Answers started_at _ _ s _ p a refl refl refl refl (sym (w socket.fd))

  start_on_targets-Answers :
      (started_at : ℕ) (s : Slot) (targets : Targets)
      → s.execution.state ≡ pending
      → s.active_feature_id ≡ []
      → Answers started_at s (start_on_targets utc platform options started_at s targets)
  unfolding start_on_targets set_active_fds activate_execution
  start_on_targets-Answers started_at s (none_open e fds) p a = inr (refl, refl, refl, refl)
  start_on_targets-Answers started_at s (all_open fds addrs) p a =
      finish_start-Answers started_at _ _ s _ p a refl refl refl refl refl

  start_multi_target-Answers :
      (started_at : ℕ) (kernel : ℕ → KernelAnswers) (s : Slot)
      → s.execution.state ≡ pending
      → s.active_feature_id ≡ []
      → Answers started_at s (start_multi_target utc platform options started_at kernel s)
  unfolding start_multi_target
  start_multi_target-Answers started_at kernel s p a = ground (
    arith,
    start_on_targets-Answers started_at s (
        open_targets utc platform options (s.execution.definition.bind_address_count)
          (target_count (s.execution.definition)) kernel 0 [] []),
  )

  start_kind-Answers :
      (kind : ScenarioKind) (started_at : ℕ) (kernel : ℕ → KernelAnswers) (s : Slot)
      → s.execution.state ≡ pending
      → s.active_feature_id ≡ []
      → s.execution.active_fds ≡ []
      → Answers started_at s (start_kind utc platform options kind started_at kernel s)
  unfolding start_kind start_single
  start_kind-Answers agent_only started_at kernel s p a f =
      unfold activate_execution in
      finish_start-Answers started_at [] no_worker s _ p a refl refl refl refl f
  start_kind-Answers receive_messages started_at kernel s p a f =
      start_on-Answers started_at _ s _ (λ fd. refl) p a
  start_kind-Answers receive_messages_multi_target started_at kernel s p a f =
      start_multi_target-Answers started_at kernel s p a
  start_kind-Answers send_after_trigger started_at kernel s p a f =
      start_on-Answers started_at _ s _ (λ fd. refl) p a
  start_kind-Answers receive_pr_messages started_at kernel s p a f =
      start_on-Answers started_at _ s _ (λ fd. refl) p a

  -- `StartFeature` on every branch: against the slot that its own check of the deadline leaves, it
  -- answers 200, the feature runs until its timeout and holds what its worker reads from; or 409,
  -- with the execution and the active feature unchanged and no worker. It answers 200 only for a
  -- pending feature of a session with no active one.
  pub start_feature-Answers :
      (checked_at started_at : ℕ) (kernel : ℕ → KernelAnswers) (s : Slot)
      → IsConsistent s.active_feature_id s.execution
      → Answers started_at
          (maybe_timeout checked_at s)
          (start_feature utc platform options checked_at started_at kernel s)
  unfolding start_feature
  start_feature-Answers checked_at started_at kernel s c =
      let late = maybe_timeout checked_at s in
      let kept = (maybe_timeout-IsMark checked_at s).step.consistent c in
      ground (
        arith,
        kept.idle,
        start_kind-Answers (late.execution.definition.scenario_kind) started_at kernel late,
      )

  -- `StartFeature` keeps the invariant of its slot: the state follows the life of a feature, and
  -- the session names the feature exactly if it runs.
  pub start_feature-IsStep :
      (checked_at started_at : ℕ) (kernel : ℕ → KernelAnswers) (s : Slot)
      → IsConsistent s.active_feature_id s.execution
      → IsStep s (start_feature utc platform options checked_at started_at kernel s).slot
  start_feature-IsStep checked_at started_at kernel s c =
      let late = maybe_timeout checked_at s in
      let r = start_feature utc platform options checked_at started_at kernel s in
      IsStep-trans s late r.slot (maybe_timeout-pending checked_at s)
        (maybe_timeout-IsMark checked_at s).step
        (Answers-IsStep started_at late r ((maybe_timeout-IsMark checked_at s).step.consistent c)
          (start_feature-Answers checked_at started_at kernel s c))
