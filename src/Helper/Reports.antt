-- ===== src/Helper/Reports.antt =====
-- What the loop of `run_server` of adapters/freebsd_c/helper.c reports.
use sctp_conformance.Base.{
  ℕ, suc, ◌-◌, Bool, true, false, ◌&&◌, List, [], ◌∷◌, ◌≡◌, refl, ap, ◌∙◌, arith, leb, ltb, ◌⊎◌,
  ◌==◌, Bytes, codes, Option-cases, Bool-cases, length, take, inl, inr,
}
use mathlib.Core.Path.{subst}
use sctp_conformance.Base.Int.{ℤ, pos, negsuc}
use sctp_conformance.Worker.{c_string}
use sctp_conformance.Helper.{
  Options, Sockaddr, Event, addrs, recv, ready, sent, notify, expected_failure, complete, error,
  Libc, Received, recv_error, notification, message, Calls, success, failure, Run, waits, ends,
  emit,
}
use sctp_conformance.Helper.Endpoints.{below, emit_loaded, load_addrs}
use sctp_conformance.Helper.Server.{receive_loop}
use sctp_conformance.Helper.Exit.{succeeds}

abbrev pub events_of : Run → List Event
events_of (waits events) = events
events_of (ends events fds rc) = events

-- The lines on messages.
abbrev pub recv_lines : List Event → List Event
recv_lines [] = []
recv_lines (recv payload stream ppid assoc_id ∷ events) =
    recv payload stream ppid assoc_id ∷ recv_lines events
recv_lines (_ ∷ events) = recv_lines events

-- The lines that the messages in front of the first error ask for.
abbrev pub heard : List Received → List Event
heard [] = []
heard (recv_error ∷ rs) = []
heard (notification type flags ∷ rs) = heard rs
heard (message payload sid ppid assoc_id ∷ rs) =
    recv (c_string payload) sid ppid assoc_id ∷ heard rs

-- How many messages `--read-messages` asks for.
abbrev pub wanted : ℤ → ℕ
wanted (pos n) = n
wanted (negsuc n) = 0

-- A run with these lines on messages, which ends with 0 exactly if `done`.
abbrev Says : List Event → Bool → Run → Type 0
Says lines done run = (recv_lines (events_of run) ≡ lines) × (succeeds run ≡ done)

-- The loop is done, or it asks for one message and the rest.
left-cases :
    (count : ℕ) (n : ℤ)
    → ((wanted n - count ≡ 0) × (below count n ≡ false))
      ⊎ ((p : ℕ) × (wanted n - count ≡ suc p) × (wanted n - suc count ≡ p) × (below count n ≡ true))
left-cases count (negsuc n) = inl (omega arith, refl)
left-cases count (pos n) = elim (Bool-cases (ltb count n)) [
  | inl less ↦ inr (n - suc count, ground arith, refl, less)
  | inr enough ↦ inl (ground arith, enough)
]

silent-recv_lines :
    (e : Event) (events : List Event)
    → recv_lines (e ∷ []) ≡ []
    → recv_lines (e ∷ events) ≡ recv_lines events
silent-recv_lines (ready list) events h = refl
silent-recv_lines (addrs event list) events h = refl
silent-recv_lines (recv payload stream ppid assoc_id) events h = absurd (ground arith)
silent-recv_lines (sent payload stream ppid) events h = refl
silent-recv_lines (notify type flags) events h = refl
silent-recv_lines (expected_failure stage text) events h = refl
silent-recv_lines (complete count field) events h = refl
silent-recv_lines (error text) events h = refl

-- An event that is no line on a message.
emit-Says :
    (e : Event) (lines : List Event) (done : Bool) (run : Run)
    → recv_lines (e ∷ []) ≡ []
    → Says lines done run
    → Says lines done (emit e run)
emit-Says e lines done (waits events) silent h = (silent-recv_lines e events silent ∙ h.0, h.1)
emit-Says e lines done (ends events fds success) silent h =
    (silent-recv_lines e events silent ∙ h.0, h.1)
emit-Says e lines done (ends events fds (failure text)) silent h =
    (silent-recv_lines e events silent ∙ h.0, h.1)

-- A line on a message.
recv-Says :
    (payload : Bytes) (sid ppid assoc_id : ℕ) (lines : List Event) (done : Bool) (run : Run)
    → Says lines done run
    → Says (recv payload sid ppid assoc_id ∷ lines) done (emit (recv payload sid ppid assoc_id) run)
recv-Says payload sid ppid assoc_id lines done (waits events) h =
    (ap (λ (x : List Event). recv payload sid ppid assoc_id ∷ x) h.0, h.1)
recv-Says payload sid ppid assoc_id lines done (ends events fds success) h =
    (ap (λ (x : List Event). recv payload sid ppid assoc_id ∷ x) h.0, h.1)
recv-Says payload sid ppid assoc_id lines done (ends events fds (failure text)) h =
    (ap (λ (x : List Event). recv payload sid ppid assoc_id ∷ x) h.0, h.1)

module _ (libc : Libc) (k : Calls) (opts : Options) where
  emit_loaded-Says :
      (asked : Bool) (event : Bytes) (list : List Sockaddr) (lines : List Event) (done : Bool)
      (run : Run)
      → Says lines done run
      → Says lines done (emit_loaded libc asked event list run)
  unfolding emit_loaded
  emit_loaded-Says false event list lines done run h = h
  emit_loaded-Says true event list lines done run h = elim (Option-cases (load_addrs libc list)) [
    | inl lost ↦ rw lost h
    | inr (texts, there) ↦ rw there (emit-Says (addrs event texts) lines done run refl h)
  ]

  receive_loop-Says :
      (rs : List Received) (count : ℕ)
      → Says
          (take (wanted opts.read_messages - count) (heard rs))
          (leb (wanted opts.read_messages - count) (length (heard rs)))
          (receive_loop libc k opts count rs)
  unfolding receive_loop
  receive_loop-Says [] count = elim (left-cases count opts.read_messages) [
    | inl (nothing, done) ↦ rw nothing (rw done (refl, ground arith))
    | inr (p, left, then_left, more) ↦ rw left (rw more (refl, ground arith))
  ]
  receive_loop-Says (recv_error ∷ rs) count = elim (left-cases count opts.read_messages) [
    | inl (nothing, done) ↦ rw nothing (rw done (refl, ground arith))
    | inr (p, left, then_left, more) ↦ rw left (rw more (refl, ground arith))
  ]
  receive_loop-Says (notification type flags ∷ rs) count =
      elim (left-cases count opts.read_messages) [
        | inl (nothing, done) ↦ rw nothing (rw done (refl, ground arith))
        | inr (p, left, then_left, more) ↦
            rw more (emit-Says (notify type flags) _ _ _ refl (receive_loop-Says rs count))
      ]
  receive_loop-Says (message payload sid ppid assoc_id ∷ rs) count =
      elim (left-cases count opts.read_messages) [
        | inl (nothing, done) ↦ rw nothing (rw done (refl, ground arith))
        | inr (p, left, then_left, more) ↦ rw left (
            rw more (
              recv-Says (c_string payload) sid ppid assoc_id _ _ _ (
                emit_loaded-Says (opts.emit_peer_addrs && count == 0) (codes "peer_addrs")
                  (k.getpaddrs assoc_id) _ _ _
                  (
                    (receive_loop-Says rs (suc count)).0
                        ∙ ap (λ (x : ℕ). take x (heard rs)) then_left,
                    (receive_loop-Says rs (suc count)).1 ∙ ground arith,
                  ))))
      ]

  -- The loop of `run_server` prints a line for each of the first `--read-messages` messages in front
  -- of the first error, in order, and no other line on a message, whatever notifications come in
  -- between. `run_server` then returns 0 exactly if there are so many; a negative number asks for none.
  pub receive_loop_reports :
      (rs : List Received)
      → (recv_lines (events_of (receive_loop libc k opts 0 rs))
          ≡ take (wanted opts.read_messages) (heard rs))
        × (succeeds (receive_loop libc k opts 0 rs)
            ≡ leb (wanted opts.read_messages) (length (heard rs)))
  receive_loop_reports rs =
      subst
        (λ n. Says (take n (heard rs)) (leb n (length (heard rs))) (receive_loop libc k opts 0 rs))
        (omega arith) (receive_loop-Says rs 0)
