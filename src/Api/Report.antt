-- ===== src/Api/Report.antt =====
-- `CompleteFeature` and `UnsupportedFeature`.
use sctp_conformance.Base.{
  ℕ, Bool, true, false, not, ◌&&◌, ◌||◌, List, [], ◌∷◌, Option, none, some, ◌==◌, if◌then◌else◌,
  Bytes, codes, bytes_eq, bytes_lt, is_empty, length,
}
use sctp_conformance.Json.Value.{
  string, array, Members, Elements, no_elements, element, Outcome, ok, error, find_member, Params,
  param,
}
use sctp_conformance.Json.Parser.{parse_json_root_object, parse_simple_json_object}
use sctp_conformance.Feature.{OneToManyContract, passed, unsupported}
use sctp_conformance.Http.{HttpResponse, response, refusal}
use sctp_conformance.Session.{
  Slot, is_active, is_pending, is_passed, is_server_observed, is_agent_reported, release,
  maybe_timeout,
}
use sctp_conformance.Api.Json.{feature_json}

-- The lambda `get_string`.
unfoldable pub get_string : Bytes → Members → Bytes
unfolding find_member
get_string key root = elim (find_member key root) [ some (string s) ↦ s | _ ↦ [] ]

-- The loop over `array_value`.
unfoldable pub only_strings : Elements → Outcome (List Bytes)
only_strings no_elements = ok []
only_strings (element (string s) rest) = elim (only_strings rest) [
  | ok ids ↦ ok (s ∷ ids)
  | error e ↦ error e
]
only_strings (element _ rest) = error (codes "assoc_ids must contain only strings")

unfoldable pub read_assoc_ids : Members → Outcome (List Bytes)
unfolding find_member only_strings
read_assoc_ids root = elim (find_member (codes "assoc_ids") root) [
  | none ↦ ok []
  | some (array elements) ↦ only_strings elements
  | some _ ↦ error (codes "assoc_ids must be a JSON array of strings")
]

-- `std::sort` of strings, by insertion.
unfoldable pub insert_sorted : Bytes → List Bytes → List Bytes
unfolding bytes_lt
insert_sorted x [] = x ∷ []
insert_sorted x (y ∷ ys) = if bytes_lt y x then y ∷ insert_sorted x ys else x ∷ y ∷ ys

unfoldable pub sort : List Bytes → List Bytes
unfolding insert_sorted
sort [] = []
sort (x ∷ xs) = insert_sorted x (sort xs)

-- The test of `sorted[0]` and `sorted[1]`; a list with fewer entries, which the program does not
-- guard against, counts as refused.
unfoldable pub distinct_nonzero : List Bytes → Bool
distinct_nonzero (a ∷ b ∷ rest) =
    not
      (is_empty a || is_empty b || bytes_eq a (codes "0") || bytes_eq b (codes "0") || bytes_eq a b)
distinct_nonzero _ = false

-- The check of `assoc_ids`: the text of the refusal, or nothing.
unfoldable pub check_assoc_ids : OneToManyContract → List Bytes → Option Bytes
unfolding sort distinct_nonzero
check_assoc_ids contract ids =
    if not (length ids == contract.expected_associations)
    then some (codes "assoc_ids must include exactly two distinct association ids")
    else if not (distinct_nonzero (sort ids))
    then some (codes "assoc_ids must include two distinct non-zero association ids")
    else none

-- The contract, where it requires distinct ids.
unfoldable pub requires_ids : Option OneToManyContract → Option OneToManyContract
requires_ids none = none
requires_ids (some c) = if c.require_distinct_assoc_ids then some c else none

-- The report itself, on an execution that accepts it.
unfoldable pub accept_report : ℕ → Members → Slot → Slot
unfolding get_string
accept_report finished_at root s =
    let e = record (s.execution) {
      agent_complete = true;
      evidence_kind = get_string (codes "evidence_kind") root;
      evidence_text = get_string (codes "evidence_text") root;
      report_text = get_string (codes "report_text") root;
    } in
    if is_agent_reported (e.definition.completion_mode) || e.network_complete
    then release (record s {
      execution = record e {
        state = passed;
        message = codes "scenario completed successfully";
        finished_at = finished_at;
      };
    })
    else record s {
      execution = record e { message = codes "waiting for server-side SCTP observation" };
    }

-- `if (!parse…) return {400, json_error(error)};`
abbrev pub or_bad_request {ℓ} :
    {A : Type ℓ} → Outcome A → Slot → (A → Slot × HttpResponse) → Slot × HttpResponse
or_bad_request (ok a) s go_on = go_on a
or_bad_request (error e) s go_on = (s, refusal 400 e)

module _ (utc : ℕ → Bytes) where
  -- `{200, FeatureJson(session, execution)}`
  abbrev answer : Slot → Slot × HttpResponse
  answer s = (s, response 200 (feature_json utc s.execution true))

  unfoldable pub report_ids : ℕ → Members → List Bytes → Slot → Slot × HttpResponse
  unfolding requires_ids
  report_ids finished_at root ids s =
      if not (is_active (s.execution.state))
      then (s, refusal 409 (codes "feature is not active"))
      else if is_server_observed (s.execution.definition.completion_mode)
      then (s, refusal 409 (codes "feature does not accept client completion reports"))
      else elim (requires_ids (s.execution.definition.one_to_many)) [
        | none ↦ answer (accept_report finished_at root s)
        | some contract ↦ elim (check_assoc_ids contract ids) [
          | some text ↦ (s, refusal 400 text)
          | none ↦ answer (
              accept_report finished_at root
                (record s { execution = record (s.execution) { assoc_ids = ids } }))
        ]
      ]

  unfoldable pub complete_feature : ℕ → ℕ → Bytes → Slot → Slot × HttpResponse
  unfolding read_assoc_ids
  complete_feature checked_at finished_at body s =
      let s' = maybe_timeout checked_at s in
      or_bad_request (parse_json_root_object body) s'
        λ root. or_bad_request (read_assoc_ids root) s' λ ids. report_ids finished_at root ids s'

  unfoldable pub give_up : ℕ → Params → Slot → Slot × HttpResponse
  unfolding param
  give_up finished_at params s =
      if is_passed (s.execution.state)
      then (s, refusal 409 (codes "feature already passed and cannot be marked unsupported"))
      else if not (is_pending (s.execution.state)) && not (is_active (s.execution.state))
      then (s, refusal 409 (codes "feature is already in a terminal state"))
      else answer (
          release (record s {
            execution = record (s.execution) {
              state = unsupported;
              message = param (codes "reason") params;
              evidence_kind = param (codes "evidence_kind") params;
              evidence_text = param (codes "evidence_text") params;
              finished_at = finished_at;
            };
          }))

  unfoldable pub unsupported_feature : ℕ → ℕ → Bytes → Slot → Slot × HttpResponse
  unsupported_feature checked_at finished_at body s =
      let s' = maybe_timeout checked_at s in
      or_bad_request (parse_simple_json_object body) s' λ params. give_up finished_at params s'
