-- ===== src/Api/Blocks.antt =====
-- `mark_failed`, `mark_network_complete` and `maybe_timeout` of server/freebsd_ref/main.cpp, and what
-- `CompleteFeature` and `UnsupportedFeature` do with a body they could read, as blocks that other
-- threads may come between: each takes a mutex, or closes one descriptor.
use sctp_conformance.Base.{
  ℕ, zero, suc, ◌≢◌, Bool, true, false, not, none, some, ◌&&◌, ◌||◌, List, [], ◌∷◌, ◌++◌, ltb,
  if◌then◌else◌, Bytes, codes,
}
use sctp_conformance.Base.Int.{ℤ, is_nonneg}
use sctp_conformance.Json.Value.{Members, Params, param}
use sctp_conformance.Feature.{passed, failed, timed_out, unsupported}
use sctp_conformance.Session.{
  FeatureExecution, Slot, is_active, is_pending, is_passed, is_server_observed, is_agent_reported,
  clear_active_feature, mark_failed, mark_network_complete, maybe_timeout,
}
use sctp_conformance.Api.Report.{get_string, requires_ids, check_assoc_ids, report_ids, give_up}

pub data Mark : Type 0 where
  failing : Bytes → Mark
  observing timing_out : Mark
  reporting : Members → List Bytes → Mark
  declining : Params → Mark

-- The function of a mark, run as a whole; of a handler, the part behind the reading of the body.
abbrev pub run_mark : (ℕ → Bytes) → Mark → ℕ → Slot → Slot
run_mark utc (failing message) now s = mark_failed now message s
run_mark utc observing now s = mark_network_complete now s
run_mark utc timing_out now s = maybe_timeout now s
run_mark utc (reporting root ids) now s = (report_ids utc now root ids s).0
run_mark utc (declining params) now s = (give_up utc now params s).0

-- Where a call stands: in front of a block, with `finished` where it has been set and the descriptors
-- still to close, or behind its return.
pub data Place : Type 0 where
  deciding : Mark → ℕ → Place
  taking : Bool → Place
  closing : Bool → List ℤ → Place
  clearing : Place
  returned : Place

-- A report that is accepted.
unfoldable pub accept : ℕ → Members → FeatureExecution → FeatureExecution × Place
unfolding get_string
accept now root old =
    let e = record old {
      agent_complete = true;
      evidence_kind = get_string (codes "evidence_kind") root;
      evidence_text = get_string (codes "evidence_text") root;
      report_text = get_string (codes "report_text") root;
    } in
    if is_agent_reported (e.definition.completion_mode) || e.network_complete
    then (
      record e {
        state = passed;
        message = codes "scenario completed successfully";
        finished_at = now;
      },
      taking true,
    )
    else (record e { message = codes "waiting for server-side SCTP observation" }, returned)

-- The block of `CompleteFeature`.
unfoldable pub report : ℕ → Members → List Bytes → FeatureExecution → FeatureExecution × Place
unfolding accept requires_ids check_assoc_ids
report now root ids e =
    if not (is_active e.state)
    then (e, returned)
    else if is_server_observed (e.definition.completion_mode)
    then (e, returned)
    else elim (requires_ids (e.definition.one_to_many)) [
      | none ↦ accept now root e
      | some contract ↦ elim (check_assoc_ids contract ids) [
        | some text ↦ (e, returned)
        | none ↦ accept now root (record e { assoc_ids = ids })
      ]
    ]

-- The block of `UnsupportedFeature`.
unfoldable pub decline : ℕ → Params → FeatureExecution → FeatureExecution × Place
unfolding param
decline now params e =
    if is_passed e.state
    then (e, returned)
    else if not (is_pending e.state) && not (is_active e.state)
    then (e, returned)
    else (
      record e {
        state = unsupported;
        message = param (codes "reason") params;
        evidence_kind = param (codes "evidence_kind") params;
        evidence_text = param (codes "evidence_text") params;
        finished_at = now;
      },
      taking true,
    )

-- The block that looks at the state and changes it.
unfoldable pub decide : Mark → ℕ → FeatureExecution → FeatureExecution × Place
unfolding report decline
decide (failing text) now e =
    if is_active e.state
    then (record e { state = failed; message = text; finished_at = now }, taking true)
    else (e, returned)
decide observing now e =
    if is_active e.state
    then (if is_server_observed (e.definition.completion_mode) || e.agent_complete
        then (
          record e {
            network_complete = true;
            state = passed;
            message = codes "scenario completed successfully";
            finished_at = now;
          },
          taking true,
        )
        else (
          record e {
            network_complete = true;
            message = codes "server observed SCTP behavior; waiting for client completion report";
          },
          taking false,
        ))
    else (e, returned)
decide timing_out now e =
    if is_active e.state
    then (if ltb now e.deadline_at then (e, returned) else (
      record e { state = timed_out; message = codes "scenario timed out"; finished_at = now },
      taking true,
    ))
    else (e, returned)
decide (reporting root ids) now e = report now root ids e
decide (declining params) now e = decline now params e

-- The next block of a call.
unfoldable pub block : Place → Slot → Slot × Place
unfolding decide clear_active_feature
block (deciding mark now) s =
    let (e, place) = decide mark now s.execution in (record s { execution = e }, place)
block (taking finished) s = (
  record s { execution = record (s.execution) { active_fds = [] } },
  closing finished (s.execution.active_fds),
)
block (closing finished []) s = (s, (if finished then clearing else returned))
block (closing finished (fd ∷ fds)) s =
    ((if is_nonneg fd then record s { closed = s.closed ++ fd ∷ [] } else s), closing finished fds)
block clearing s = (clear_active_feature (s.execution.definition.id) s, returned)
block returned s = (s, returned)

-- A slot and the calls on it. In each move, one call that has not returned runs its next block.
pub data Moves : ℕ → Slot × List Place → Slot × List Place → Type 0 where
  rest : {c : Slot × List Place} → Moves 0 c c
  move :
      {n : ℕ} {c : Slot × List Place} {s : Slot} (before : List Place) (place : Place)
      (after : List Place)
      → Moves n c (s, before ++ place ∷ after)
      → place ≢ returned
      → Moves (suc n) c ((block place s).0, before ++ (block place s).1 ∷ after)

-- The calls of some marks, each with its reading of the clock.
abbrev pub calls : List (Mark × ℕ) → List Place
calls [] = []
calls ((mark, now) ∷ marks) = deciding mark now ∷ calls marks

-- A call that nothing interrupts, on enough fuel.
unfoldable pub run_alone : ℕ → Place → Slot → Slot × Place
unfolding block
run_alone zero place s = (s, place)
run_alone (suc fuel) place s = let (t, next) = block place s in run_alone fuel next t
