-- ===== src/Api/Start.antt =====
-- `StartFeature`.
use sctp_conformance.Base.{
  ℕ, zero, suc, true, not, ◌&&◌, List, [], ◌∷◌, ◌++◌, none, some, ◌==◌, if◌then◌else◌, Bytes, codes,
  bytes_eq, is_empty, length,
}
use sctp_conformance.Base.Int.{ℤ}
use sctp_conformance.Feature.{
  FeatureDefinition, ScenarioKind, agent_only, receive_messages, receive_messages_multi_target,
  send_after_trigger, receive_pr_messages,
}
use sctp_conformance.Contract.{build_contract}
use sctp_conformance.Http.{HttpResponse, response, refusal}
use sctp_conformance.Session.{
  Slot, is_active, is_pending, is_agent_reported, set_active_fds, set_active_fd, closable,
  maybe_timeout, activate_execution, set_active_feature,
}
use sctp_conformance.Socket.{
  ServerOptions, KernelAnswers, Platform, Attempt, opened, refused, create_listening_socket,
}
use sctp_conformance.Worker.{
  Worker, no_worker, receive_worker, pr_receive_worker, receive_multi_target_worker,
  send_after_trigger_worker,
}
use sctp_conformance.Api.Json.{feature_json}

pub record Started : Type 0 where
  pub slot : Slot
  pub response : HttpResponse
  pub worker : Worker

-- `execution->contract_json = contract`
unfoldable pub set_contract : Bytes → Slot → Slot
set_contract contract s = record s { execution = record (s.execution) { contract_json = contract } }

-- The last block before the answer.
unfoldable pub set_waiting : Slot → Slot
unfolding bytes_eq
set_waiting s =
    if is_active (s.execution.state)
      && bytes_eq (s.execution.message) (codes "scenario active")
      && is_agent_reported (s.execution.definition.completion_mode)
    then record s {
      execution = record (s.execution) { message = codes "waiting for client completion report" };
    }
    else s

-- `target_count`
unfoldable pub target_count : FeatureDefinition → ℕ
target_count d = elim d.one_to_many [
  | some c ↦ c.expected_associations
  | none ↦ length d.client_send_messages
]

-- `if (!advertise_addrs.empty()) connect_addrs.push_back(advertise_addrs.front())`
abbrev pub push_front_of : List Bytes → List Bytes → List Bytes
push_front_of [] addrs = addrs
push_front_of (a ∷ rest) addrs = addrs ++ a ∷ []

-- The listeners of a multi-target feature: all, or none with what was closed.
pub data Targets : Type 0 where
  all_open : List ℤ → List Bytes → Targets
  none_open : Bytes → List ℤ → Targets

module _ (utc : ℕ → Bytes) (platform : Platform) (options : ServerOptions) where
  -- The loop over the targets; `kernel i` answers the attempt `i`.
  unfoldable pub open_targets : ℕ → ℕ → (ℕ → KernelAnswers) → ℕ → List ℤ → List Bytes → Targets
  open_targets bind_count zero kernel i fds addrs = all_open fds addrs
  open_targets bind_count (suc n) kernel i fds addrs =
      elim (create_listening_socket platform options bind_count (kernel i)) [
        | opened s ↦
            open_targets bind_count n kernel (suc i) (fds ++ s.fd ∷ [])
              (push_front_of s.advertise_addrs addrs)
        | refused e failed_fds ↦ none_open e (failed_fds ++ closable fds)
      ]

  -- The end of every successful branch, on a slot that is active: the contract and the answer.
  unfoldable pub finish_start : List Bytes → Worker → Slot → Started
  unfolding set_contract set_waiting
  finish_start connect_addrs worker s =
      let s' = set_waiting (set_contract (build_contract s.execution.definition connect_addrs) s) in
      record {
        slot = s';
        response = response 200 (feature_json utc s'.execution true);
        worker = worker;
      }

  abbrev pub refuse : Slot → List ℤ → Bytes → Started
  refuse s fds text = record {
    slot = record s { closed = s.closed ++ fds };
    response = refusal 409 text;
    worker = no_worker;
  }

  -- A feature with one listening socket, from `if (!socket_info)` on.
  unfoldable pub start_on : ℕ → (ℤ → Worker) → Slot → Attempt → Started
  start_on started_at thread s (refused e fds) = refuse s fds e
  start_on started_at thread s (opened socket) =
      finish_start socket.advertise_addrs (thread socket.fd)
        (set_active_feature (set_active_fd socket.fd (activate_execution started_at s)))

  unfoldable pub start_single : ℕ → KernelAnswers → (ℤ → Worker) → Slot → Started
  start_single started_at kernel thread s =
      start_on started_at thread s (
        create_listening_socket platform options (s.execution.definition.bind_address_count) kernel)

  -- A feature with several, behind the loop.
  unfoldable pub start_on_targets : ℕ → Slot → Targets → Started
  start_on_targets started_at s (none_open e fds) = refuse s fds e
  start_on_targets started_at s (all_open fds addrs) =
      finish_start addrs
        (receive_multi_target_worker fds (s.execution.definition.client_send_messages))
        (set_active_feature (set_active_fds fds (activate_execution started_at s)))

  unfoldable pub start_multi_target : ℕ → (ℕ → KernelAnswers) → Slot → Started
  unfolding target_count
  start_multi_target started_at kernel s =
      let d = s.execution.definition in
      if target_count d == 0
      then refuse s [] (codes "one-to-many feature is missing expected associations")
      else start_on_targets started_at s
          (open_targets d.bind_address_count (target_count d) kernel 0 [] [])

  -- The branches on `scenario_kind`.
  unfoldable pub start_kind : ScenarioKind → ℕ → (ℕ → KernelAnswers) → Slot → Started
  start_kind agent_only started_at kernel s =
      finish_start [] no_worker (set_active_feature (activate_execution started_at s))
  start_kind receive_messages started_at kernel s =
      let d = s.execution.definition in
      start_single started_at (kernel 0)
        (λ fd. receive_worker fd d.client_send_messages d.expected_peer_addr_count) s
  start_kind receive_messages_multi_target started_at kernel s =
      start_multi_target started_at kernel s
  start_kind receive_pr_messages started_at kernel s =
      start_single started_at (kernel 0)
        (λ fd. pr_receive_worker fd (s.execution.definition.client_send_messages)) s
  start_kind send_after_trigger started_at kernel s =
      let d = s.execution.definition in
      start_single started_at (kernel 0)
        (λ fd. send_after_trigger_worker fd d.trigger_payload d.server_send_messages) s

  unfoldable pub start_feature : ℕ → ℕ → (ℕ → KernelAnswers) → Slot → Started
  start_feature checked_at started_at kernel s =
      let s' = maybe_timeout checked_at s in
      if not (is_empty s'.active_feature_id)
      then refuse s' [] (codes "another feature is already active in this session")
      else if not (is_pending (s'.execution.state))
      then refuse s' [] (codes "feature has already been started in this session")
      else start_kind (s'.execution.definition.scenario_kind) started_at kernel s'
