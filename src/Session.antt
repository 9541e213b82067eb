-- ===== src/Session.antt =====
-- `FeatureExecution`, `Session` and the functions of server/freebsd_ref/main.cpp that change them
-- under the two mutexes: `clear_active_feature` to `maybe_timeout`, and `activate_execution`.
--
-- A `Slot` is what a function sees that takes a session and one of its executions: the session's
-- `active_feature_id`, the execution, and the descriptors handed to `close` so far. A time point is
-- a number of clock ticks, 0 for the epoch; each reading of `Clock::now()` is an argument. Each
-- function here runs as if no other touched the slot meanwhile; Api/Blocks has the marks block by
-- block.
pub mod Invariant
pub mod Marks
use sctp_conformance.Base.{
  ℕ, ◌+◌, ◌*◌, Bool, true, false, ◌||◌, List, [], ◌∷◌, ◌++◌, ltb, if◌then◌else◌, Bytes, codes,
  bytes_eq, is_empty,
}
use sctp_conformance.Base.Int.{ℤ, is_nonneg}
use sctp_conformance.Feature.{
  FeatureDefinition, CompletionMode, server_observed, agent_reported, hybrid, FeatureState, pending,
  active, passed, failed, unsupported, timed_out,
}

pub record FeatureExecution : Type 0 where
  pub definition : FeatureDefinition
  pub state : FeatureState
  pub message : Bytes
  pub evidence_kind : Bytes
  pub evidence_text : Bytes
  pub report_text : Bytes
  pub contract_json : Bytes
  pub network_complete : Bool
  pub agent_complete : Bool
  pub active_fds : List ℤ
  pub assoc_ids : List Bytes
  pub started_at : ℕ
  pub deadline_at : ℕ
  pub finished_at : ℕ

-- The constructor.
unfoldable pub new_execution : FeatureDefinition → FeatureExecution
new_execution feature = record {
  definition = feature;
  state = pending;
  message = codes "not started";
  evidence_kind = [];
  evidence_text = [];
  report_text = [];
  contract_json = [];
  network_complete = false;
  agent_complete = false;
  active_fds = [];
  assoc_ids = [];
  started_at = 0;
  deadline_at = 0;
  finished_at = 0;
}

pub record Slot : Type 0 where
  pub active_feature_id : Bytes
  pub execution : FeatureExecution
  pub closed : List ℤ

-- `state == FeatureState::Active` and the like.
abbrev pub is_active : FeatureState → Bool
is_active active = true
is_active _ = false

abbrev pub is_pending : FeatureState → Bool
is_pending pending = true
is_pending _ = false

abbrev pub is_passed : FeatureState → Bool
is_passed passed = true
is_passed _ = false

abbrev pub is_server_observed : CompletionMode → Bool
is_server_observed server_observed = true
is_server_observed _ = false

abbrev pub is_agent_reported : CompletionMode → Bool
is_agent_reported agent_reported = true
is_agent_reported _ = false

unfoldable pub clear_active_feature : Bytes → Slot → Slot
clear_active_feature feature_id s =
    if bytes_eq s.active_feature_id feature_id then record s { active_feature_id = [] } else s

unfoldable pub set_active_fds : List ℤ → Slot → Slot
set_active_fds fds s = record s { execution = record (s.execution) { active_fds = fds } }

unfoldable pub set_active_fd : ℤ → Slot → Slot
set_active_fd fd s = record s { execution = record (s.execution) { active_fds = fd ∷ [] } }

-- The descriptors of a list that are handed to `close`.
unfoldable pub closable : List ℤ → List ℤ
closable [] = []
closable (fd ∷ fds) = if is_nonneg fd then fd ∷ closable fds else closable fds

-- `take_active_fds`, and `close` on each.
unfoldable pub close_active_fds : Slot → Slot
unfolding closable
close_active_fds s = record s {
  execution = record (s.execution) { active_fds = [] };
  closed = s.closed ++ closable (s.execution.active_fds);
}

-- `finished`: a terminal state, its descriptors closed and the session free.
unfoldable pub release : Slot → Slot
unfolding clear_active_feature close_active_fds
release s = clear_active_feature (s.execution.definition.id) (close_active_fds s)

unfoldable pub mark_failed : ℕ → Bytes → Slot → Slot
mark_failed now message s =
    if is_active (s.execution.state)
    then release (record s {
      execution = record (s.execution) { state = failed; message = message; finished_at = now };
    })
    else s

unfoldable pub mark_network_complete : ℕ → Slot → Slot
mark_network_complete now s =
    if is_active (s.execution.state)
    then (if is_server_observed (s.execution.definition.completion_mode)
          || s.execution.agent_complete
        then release (record s {
          execution = record (s.execution) {
            network_complete = true;
            state = passed;
            message = codes "scenario completed successfully";
            finished_at = now;
          };
        })
        else close_active_fds (record s {
          execution = record (s.execution) {
            network_complete = true;
            message = codes "server observed SCTP behavior; waiting for client completion report";
          };
        }))
    else s

unfoldable pub maybe_timeout : ℕ → Slot → Slot
maybe_timeout now s =
    if is_active (s.execution.state)
    then (if ltb now (s.execution.deadline_at)
        then s
        else release (record s {
          execution = record (s.execution) {
            state = timed_out;
            message = codes "scenario timed out";
            finished_at = now;
          };
        }))
    else s

-- `std::chrono::seconds(1)` in ticks of the system clock, which are microseconds.
abbrev pub second : ℕ
second = 1000000

unfoldable pub activate_execution : ℕ → Slot → Slot
activate_execution now s = record s {
  execution = record (s.execution) {
    state = active;
    message =
        if is_agent_reported (s.execution.definition.completion_mode)
        then codes "waiting for client completion report"
        else codes "scenario active";
    started_at = now;
    deadline_at = now + s.execution.definition.timeout_seconds * second;
  };
}

-- `session->active_feature_id = execution->definition->id`
unfoldable pub set_active_feature : Slot → Slot
set_active_feature s = record s { active_feature_id = s.execution.definition.id }
