-- ===== src/Session/Marks.antt =====
-- The marks of the workers and of `maybe_timeout`, against the invariant of a slot.
use sctp_conformance.Base.{ℕ, ◌≡◌, true, arith, Bytes, codes}
use sctp_conformance.Session.{Slot, mark_failed, mark_network_complete, maybe_timeout}
use sctp_conformance.Session.Invariant.{IsMark, IsMark-refl, release-IsMark, close-IsMark}
use sctp_conformance.Feature.{pending, passed, failed, timed_out}

-- `mark_failed` keeps the invariant of its slot: the state follows the life of a feature, `passed` is
-- justified, the session names the feature only while it runs, and no descriptor is lost.
pub mark_failed-IsMark :
    (now : ℕ) (message : Bytes) (s : Slot) → IsMark s (mark_failed now message s)
unfolding mark_failed
mark_failed-IsMark now message s =
    let e = record (s.execution) { state = failed; message = message; finished_at = now } in
    ground (arith, release-IsMark s e, IsMark-refl s)

-- `mark_network_complete` keeps the invariant of its slot: the state follows the life of a feature, `passed` is
-- justified, the session names the feature only while it runs, and no descriptor is lost.
pub mark_network_complete-IsMark : (now : ℕ) (s : Slot) → IsMark s (mark_network_complete now s)
unfolding mark_network_complete
mark_network_complete-IsMark now s =
    let seen = record (s.execution) { network_complete = true } in
    let done = record seen {
      state = passed;
      message = codes "scenario completed successfully";
      finished_at = now;
    } in
    let waiting = record seen {
      message = codes "server observed SCTP behavior; waiting for client completion report";
    } in
    ground (arith, release-IsMark s done, close-IsMark s waiting, IsMark-refl s)

-- `maybe_timeout` keeps the invariant of its slot: the state follows the life of a feature, `passed` is
-- justified, the session names the feature only while it runs, and no descriptor is lost.
pub maybe_timeout-IsMark : (now : ℕ) (s : Slot) → IsMark s (maybe_timeout now s)
unfolding maybe_timeout
maybe_timeout-IsMark now s =
    let late = record (s.execution) {
      state = timed_out;
      message = codes "scenario timed out";
      finished_at = now;
    } in
    ground (arith, release-IsMark s late, IsMark-refl s)

-- A feature that has not started does not time out.
pub maybe_timeout-pending :
    (now : ℕ) (s : Slot)
    → s.execution.state ≡ pending
    → (maybe_timeout now s).execution.state ≡ pending
unfolding maybe_timeout
maybe_timeout-pending now s h = ground arith
