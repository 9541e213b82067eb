-- ===== src/Tests/Together.antt =====
-- A worker that fails and a poll behind the deadline, on one running feature.
use sctp_conformance.Base.{
  ℕ, ◌+◌, ◌*◌, ◌≤◌, ◌≡◌, ◌⊎◌, refl, arith, true, List, [], ◌∷◌, codes, length, bytes_eq,
}
use sctp_conformance.Base.Int.{ℤ, pos}
use sctp_conformance.Feature.{hybrid, active, failed}
use sctp_conformance.Session.{Slot}
use sctp_conformance.Api.Blocks.{
  Mark, failing, timing_out, Place, deciding, taking, closing, clearing, returned, decide, block,
  Moves, rest, move, calls,
}
use sctp_conformance.Api.Concurrent.{weight}
use sctp_conformance.Api.Together.{marks_close_once}
use sctp_conformance.Tests.Data.{running}

abbrev live : Slot
live = running hybrid

abbrev marks : List (Mark × ℕ)
marks = (failing (codes "gone"), 5) ∷ (timing_out, 1000000000) ∷ []

abbrev fails_place : Place
fails_place = deciding (failing (codes "gone")) 5

abbrev late_place : Place
late_place = deciding timing_out 1000000000

-- The worker decides, the poll finds the verdict and returns, the worker goes on.
abbrev last : Slot × List Place
last = (
  record {
    active_feature_id = [];
    execution = record (live.execution) {
      state = failed;
      message = codes "gone";
      finished_at = 5;
      active_fds = [];
    };
    closed = pos 5 ∷ [];
  },
  returned ∷ returned ∷ [],
)

moves : Moves 6 (live, calls marks) last
unfolding block decide bytes_eq
moves =
    move [] clearing (returned ∷ [])
      (move [] (closing true []) (returned ∷ [])
        (move [] (closing true (pos 5 ∷ [])) (returned ∷ [])
          (move [] (taking true) (returned ∷ [])
            (move (taking true ∷ []) late_place []
              (move [] fails_place (late_place ∷ []) rest (λ e. ground arith)) (λ e. ground arith))
            (λ e. ground arith))
          (λ e. ground arith))
        (λ e. ground arith))
      (λ e. ground arith)

marks_close_once_example :
    (6 ≤ 4 * length marks + length (live.execution.active_fds))
    × ((w : ℤ → ℕ) → weight w last.0 ≡ weight w live)
    × ((last.0.execution.state ≡ active)
        ⊎ ((last.0.execution.active_fds ≡ []) × (last.0.active_feature_id ≡ [])))
marks_close_once_example = marks_close_once 6 marks live last refl refl moves (refl, (refl, tt))
