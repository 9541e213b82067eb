-- ===== src/Api/Steps.antt =====
-- `CompleteFeature` and `UnsupportedFeature` as steps of the life of a feature.
use sctp_conformance.Base.{ℕ, ◌≡◌, true, List, arith, Bytes, codes}
use sctp_conformance.Json.Value.{Members, Outcome, ok, error, Params, param}
use sctp_conformance.Json.Parser.{parse_json_root_object, parse_simple_json_object}
use sctp_conformance.Http.{HttpResponse}
use sctp_conformance.Session.{Slot, maybe_timeout}
use sctp_conformance.Session.Invariant.{
  IsMark, IsMark-refl, release-IsMark, keep-IsMark, IsMark-trans,
}
use sctp_conformance.Session.Marks.{maybe_timeout-IsMark, maybe_timeout-pending}
use sctp_conformance.Feature.{active, passed, unsupported}
use sctp_conformance.Api.Report.{
  get_string, read_assoc_ids, accept_report, report_ids, complete_feature, give_up, or_bad_request,
  unsupported_feature,
}

accept_report-IsMark :
    (finished_at : ℕ) (root : Members) (s : Slot)
    → s.execution.state ≡ active
    → IsMark s (accept_report finished_at root s)
unfolding accept_report
accept_report-IsMark finished_at root s h =
    let e = record (s.execution) {
      agent_complete = true;
      evidence_kind = get_string (codes "evidence_kind") root;
      evidence_text = get_string (codes "evidence_text") root;
      report_text = get_string (codes "report_text") root;
    } in
    let done = record e {
      state = passed;
      message = codes "scenario completed successfully";
      finished_at = finished_at;
    } in
    let waiting = record e { message = codes "waiting for server-side SCTP observation" } in
    ground (arith, release-IsMark s done, keep-IsMark s waiting)

report_ids-IsMark :
    (utc : ℕ → Bytes) (finished_at : ℕ) (root : Members) (ids : List Bytes) (s : Slot)
    → IsMark s (report_ids utc finished_at root ids s).0
unfolding report_ids
report_ids-IsMark utc finished_at root ids s =
    let named = record s { execution = record (s.execution) { assoc_ids = ids } } in
    ground (
      arith,
      IsMark-refl s,
      accept_report-IsMark finished_at root s,
      accept_report-IsMark finished_at root named,
      keep-IsMark s (record (s.execution) { assoc_ids = ids }),
      IsMark-trans s named (accept_report finished_at root named),
    )

after_timeout : (checked_at : ℕ) (s t : Slot) → IsMark (maybe_timeout checked_at s) t → IsMark s t
after_timeout checked_at s t =
    IsMark-trans s (maybe_timeout checked_at s) t (maybe_timeout-pending checked_at s)
      (maybe_timeout-IsMark checked_at s)

or_bad_request-IsMark {ℓ} :
    {A : Type ℓ} (r : Outcome A) (s : Slot) (go_on : A → Slot × HttpResponse)
    → ((a : A) → IsMark s (go_on a).0)
    → IsMark s (or_bad_request r s go_on).0
or_bad_request-IsMark (ok a) s go_on h = h a
or_bad_request-IsMark (error e) s go_on h = IsMark-refl s

-- `CompleteFeature` keeps the invariant of its slot, whatever the body and the clock: the state
-- follows the life of a feature, `passed` is justified, and no descriptor is lost.
pub complete_feature-IsMark :
    (utc : ℕ → Bytes) (checked_at finished_at : ℕ) (body : Bytes) (s : Slot)
    → IsMark s (complete_feature utc checked_at finished_at body s).0
unfolding complete_feature
complete_feature-IsMark utc checked_at finished_at body s =
    let late = maybe_timeout checked_at s in
    after_timeout checked_at s _ (
      or_bad_request-IsMark (parse_json_root_object body) late _ λ root.
        or_bad_request-IsMark (read_assoc_ids root) late _
          λ ids. report_ids-IsMark utc finished_at root ids late)

give_up-IsMark :
    (utc : ℕ → Bytes) (finished_at : ℕ) (params : Params) (s : Slot)
    → IsMark s (give_up utc finished_at params s).0
unfolding give_up
give_up-IsMark utc finished_at params s =
    let e = record (s.execution) {
      state = unsupported;
      message = param (codes "reason") params;
      evidence_kind = param (codes "evidence_kind") params;
      evidence_text = param (codes "evidence_text") params;
      finished_at = finished_at;
    } in
    ground (arith, release-IsMark s e, IsMark-refl s)

-- `UnsupportedFeature` keeps the invariant of its slot, whatever the body and the clock: the state
-- follows the life of a feature, and no descriptor is lost.
pub unsupported_feature-IsMark :
    (utc : ℕ → Bytes) (checked_at finished_at : ℕ) (body : Bytes) (s : Slot)
    → IsMark s (unsupported_feature utc checked_at finished_at body s).0
unfolding unsupported_feature
unsupported_feature-IsMark utc checked_at finished_at body s = after_timeout checked_at s _ (
    or_bad_request-IsMark (parse_simple_json_object body) (maybe_timeout checked_at s) _
      λ params. give_up-IsMark utc finished_at params (maybe_timeout checked_at s))
