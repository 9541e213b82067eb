-- ===== src/Api/Verdicts.antt =====
-- The verdicts on a feature: `CompleteFeature`, the check of association ids, and terminal states.
use sctp_conformance.Base.{
  ℕ, ◌≡◌, ◌≢◌, ◌≤◌, ◌<◌, ◌↔◌, ◌⊎◌, refl, ◌∙◌, arith, Bool, true, false, not, ◌||◌, List, [], ◌∷◌,
  Option, none, some, Bytes, codes, bytes_eq_iff, append-nil, if◌then◌else◌, inl, inr,
}
use sctp_conformance.Json.Value.{Members, Outcome, ok, error, Params}
use sctp_conformance.Json.Parser.{parse_json_root_object, parse_simple_json_object}
use sctp_conformance.Http.{HttpResponse}
use sctp_conformance.Feature.{
  OneToManyContract, agent_reported, hybrid, FeatureState, active, passed, timed_out,
}
use sctp_conformance.Session.{
  Slot, is_active, is_pending, release, maybe_timeout, mark_failed, mark_network_complete,
  clear_active_feature, close_active_fds,
}
use sctp_conformance.Socket.{ServerOptions, KernelAnswers, Platform}
use sctp_conformance.Api.Report.{
  read_assoc_ids, requires_ids, check_assoc_ids, accept_report, report_ids, complete_feature,
  give_up, or_bad_request, unsupported_feature, sort, insert_sorted, distinct_nonzero,
}
use sctp_conformance.Api.Start.{start_feature}

-- Neither before its start nor running.
abbrev pub is_terminal : FeatureState → Bool
is_terminal state = not (is_pending state || is_active state)

or_bad_request-stays {ℓ} :
    {A : Type ℓ} (r : Outcome A) (s : Slot) (go_on : A → Slot × HttpResponse)
    → ((a : A) → (go_on a).0 ≡ s)
    → (or_bad_request r s go_on).0 ≡ s
or_bad_request-stays (ok a) s go_on h = h a
or_bad_request-stays (error e) s go_on h = refl

pub maybe_timeout-idle :
    (now : ℕ) (s : Slot) → is_active (s.execution.state) ≡ false → maybe_timeout now s ≡ s
unfolding maybe_timeout
maybe_timeout-idle now s h = ground arith

-- At or after its deadline, an active feature times out.
pub maybe_timeout-late :
    (now : ℕ) (s : Slot)
    → s.execution.state ≡ active
    → s.execution.deadline_at ≤ now
    → (maybe_timeout now s).execution.state ≡ timed_out
unfolding maybe_timeout release clear_active_feature close_active_fds
maybe_timeout-late now s h late = ground arith

module _ (utc : ℕ → Bytes) where
  report_ids-idle :
      (finished_at : ℕ) (root : Members) (ids : List Bytes) (s : Slot)
      → is_active (s.execution.state) ≡ false
      → (report_ids utc finished_at root ids s).0 ≡ s
  unfolding report_ids
  report_ids-idle finished_at root ids s h = ground arith

  complete_feature-idle :
      (checked_at finished_at : ℕ) (body : Bytes) (s : Slot)
      → is_active ((maybe_timeout checked_at s).execution.state) ≡ false
      → (complete_feature utc checked_at finished_at body s).0 ≡ maybe_timeout checked_at s
  unfolding complete_feature
  complete_feature-idle checked_at finished_at body s h =
      let s' = maybe_timeout checked_at s in
      or_bad_request-stays (parse_json_root_object body) s' _ λ root.
        or_bad_request-stays (read_assoc_ids root) s' _
          λ ids. report_ids-idle finished_at root ids s' h

  give_up-terminal :
      (finished_at : ℕ) (params : Params) (s : Slot)
      → is_terminal (s.execution.state) ≡ true
      → (give_up utc finished_at params s).0 ≡ s
  unfolding give_up
  give_up-terminal finished_at params s h = ground arith

  unsupported_feature-terminal :
      (checked_at finished_at : ℕ) (body : Bytes) (s : Slot)
      → is_terminal (s.execution.state) ≡ true
      → (unsupported_feature utc checked_at finished_at body s).0 ≡ s
  unfolding unsupported_feature
  unsupported_feature-terminal checked_at finished_at body s h =
      rw (maybe_timeout-idle checked_at s (ground arith)) (
        or_bad_request-stays (parse_simple_json_object body) s _
          λ params. give_up-terminal finished_at params s h)

  -- A report that comes at or after the deadline of an active feature passes nothing: whatever the
  -- body, the feature times out.
  pub late_report_times_out :
      (checked_at finished_at : ℕ) (body : Bytes) (s : Slot)
      → s.execution.state ≡ active
      → s.execution.deadline_at ≤ checked_at
      → (complete_feature utc checked_at finished_at body s).0.execution.state ≡ timed_out
  late_report_times_out checked_at finished_at body s on late =
      let out = maybe_timeout-late checked_at s on late in
      rw (complete_feature-idle checked_at finished_at body s (ground (arith, out))) out

  start_feature-terminal :
      (platform : Platform) (options : ServerOptions) (checked_at started_at : ℕ)
      (kernel : ℕ → KernelAnswers) (s : Slot)
      → is_terminal (s.execution.state) ≡ true
      → (start_feature utc platform options checked_at started_at kernel s).slot ≡ s
  unfolding start_feature
  start_feature-terminal platform options checked_at started_at kernel s h =
      rw (maybe_timeout-idle checked_at s (ground arith)) (ground (arith, append-nil s.closed))

  -- A verdict stands: on a feature that passed, failed, timed out or was declared unsupported, no
  -- mark, check of the deadline, start, report or declaration changes anything.
  pub verdict_stands :
      (platform : Platform) (options : ServerOptions) (t u : ℕ) (kernel : ℕ → KernelAnswers)
      (text body : Bytes) (s : Slot)
      → is_terminal (s.execution.state) ≡ true
      → (mark_failed t text s ≡ s)
        × (mark_network_complete t s ≡ s)
        × (maybe_timeout t s ≡ s)
        × ((complete_feature utc t u body s).0 ≡ s)
        × ((unsupported_feature utc t u body s).0 ≡ s)
        × ((start_feature utc platform options t u kernel s).slot ≡ s)
  verdict_stands platform options t u kernel text body s h =
      let same = maybe_timeout-idle t s (ground arith) in
      (
        unfold mark_failed in ground arith,
        unfold mark_network_complete in ground arith,
        same,
        complete_feature-idle t u body s (ground (arith, same)) ∙ same,
        unsupported_feature-terminal t u body s h,
        start_feature-terminal platform options t u kernel s h,
      )

-- What a pair of association ids must be.
abbrev pub GoodPair : List Bytes → Type 0
GoodPair (a ∷ b ∷ []) = (a ≢ b) × (a ≢ []) × (b ≢ []) × (a ≢ codes "0") × (b ≢ codes "0")
GoodPair _ = ⊥

-- For a contract with two associations, the check on the sorted ids accepts exactly two distinct
-- ids of which none is empty or "0".
pub check_assoc_ids_iff :
    (contract : OneToManyContract) (ids : List Bytes)
    → contract.expected_associations ≡ 2
    → (check_assoc_ids contract ids ≡ none) ↔ GoodPair ids
unfolding check_assoc_ids sort insert_sorted distinct_nonzero
check_assoc_ids_iff contract [] two = ground arith
check_assoc_ids_iff contract (a ∷ []) two = ground arith
check_assoc_ids_iff contract (a ∷ b ∷ []) two = ground (
  arith,
  bytes_eq_iff a b,
  bytes_eq_iff b a,
  bytes_eq_iff a (codes "0"),
  bytes_eq_iff b (codes "0"),
)
check_assoc_ids_iff contract (a ∷ b ∷ c ∷ ids) two = ground arith

-- The ids satisfy the contract that requires them, if one does.
abbrev IdsOk : Option OneToManyContract → List Bytes → Type 0
IdsOk none ids = Unit
IdsOk (some contract) ids = check_assoc_ids contract ids ≡ none

-- The ids are a good pair, where the contract of a feature requires distinct ids.
abbrev pub IdsAllowed : Option OneToManyContract → List Bytes → Type 0
IdsAllowed none ids = Unit
IdsAllowed (some contract) ids = (contract.require_distinct_assoc_ids ≡ false) ⊎ GoodPair ids

IdsOk-if :
    (asked : Bool) (c : OneToManyContract) (ids : List Bytes)
    → c.expected_associations ≡ 2
    → IdsOk (if asked then some c else none) ids ↔ ((asked ≡ false) ⊎ GoodPair ids)
IdsOk-if true c ids two =
    let (there, back) = check_assoc_ids_iff c ids two in
    (λ h. inr (there h), λ h. ground (arith, back))
IdsOk-if false c ids two = (λ h. inl refl, λ h. tt)

IdsOk-iff :
    (contract : Option OneToManyContract) (ids : List Bytes)
    → ((c : OneToManyContract) → contract ≡ some c → c.expected_associations ≡ 2)
    → IdsOk (requires_ids contract) ids ↔ IdsAllowed contract ids
unfolding requires_ids
IdsOk-iff none ids two = (λ h. h, λ h. h)
IdsOk-iff (some c) ids two = IdsOk-if (c.require_distinct_assoc_ids) c ids (two c refl)

module _ (utc : ℕ → Bytes) where
  accept_report_passes_iff :
      (finished_at : ℕ) (root : Members) (s : Slot)
      → s.execution.state ≡ active
      → ((accept_report finished_at root s).execution.state ≡ passed) ↔ (
          (s.execution.definition.completion_mode ≡ agent_reported)
          ⊎ (s.execution.network_complete ≡ true))
  unfolding accept_report release clear_active_feature close_active_fds
  accept_report_passes_iff finished_at root s on = ground arith

  report_ids_passes_iff :
      (finished_at : ℕ) (root : Members) (ids : List Bytes) (s : Slot)
      → s.execution.state ≡ active
      → ((report_ids utc finished_at root ids s).0.execution.state ≡ passed) ↔ (
          ((s.execution.definition.completion_mode ≡ agent_reported)
            ⊎ ((s.execution.definition.completion_mode ≡ hybrid)
                × (s.execution.network_complete ≡ true)))
          × IdsOk (requires_ids (s.execution.definition.one_to_many)) ids)
  unfolding report_ids
  report_ids_passes_iff finished_at root ids s on =
      let named = record s { execution = record (s.execution) { assoc_ids = ids } } in
      ground (
        arith,
        accept_report_passes_iff finished_at root s on,
        accept_report_passes_iff finished_at root named on,
      )

  -- On an active feature before its deadline, a report that can be read passes the feature exactly
  -- if the agent alone decides it, or it is hybrid and the server has seen its part; and, where the
  -- contract of the feature requires distinct ids, the report names exactly two distinct association
  -- ids, none of them empty or "0". A contract is for two associations.
  pub complete_feature_passes_iff :
      (checked_at finished_at : ℕ) (body : Bytes) (root : Members) (ids : List Bytes) (s : Slot)
      → parse_json_root_object body ≡ ok root
      → read_assoc_ids root ≡ ok ids
      → s.execution.state ≡ active
      → checked_at < s.execution.deadline_at
      → ((c : OneToManyContract)
          → s.execution.definition.one_to_many ≡ some c
          → c.expected_associations ≡ 2)
      → ((complete_feature utc checked_at finished_at body s).0.execution.state ≡ passed) ↔ (
          ((s.execution.definition.completion_mode ≡ agent_reported)
            ⊎ ((s.execution.definition.completion_mode ≡ hybrid)
                × (s.execution.network_complete ≡ true)))
          × IdsAllowed (s.execution.definition.one_to_many) ids)
  unfolding complete_feature
  complete_feature_passes_iff checked_at finished_at body root ids s p q on early two =
      let early_s : maybe_timeout checked_at s ≡ s = unfold maybe_timeout in ground arith in
      let (there, back) = report_ids_passes_iff finished_at root ids s on in
      let (out, into) = IdsOk-iff (s.execution.definition.one_to_many) ids two in
      rw (early_s, p, q) ((λ h. let a = there h in (a.0, out a.1)), (λ h. back (h.0, into h.1)))
