-- ===== src/Worker.antt =====
-- The worker threads of server/freebsd_ref/main.cpp. A worker is a function of what the calls of
-- `sctp_recvv` and `sctp_sendv` on its sockets return, in order. Where the returns run out the
-- thread still waits in a call. The lock is taken only by the mark at the end.
pub mod Delivery
pub mod Partial
pub mod Peers
use sctp_conformance.Base.{
  ℕ, zero, suc, Bool, true, false, not, ◌&&◌, ◌||◌, List, [], ◌∷◌, ◌++◌, Option, none, some, ltb,
  ◌==◌, if◌then◌else◌, Bytes, codes, bytes_eq, is_empty, length,
}
use sctp_conformance.Base.Int.{ℤ}
use sctp_conformance.Feature.{MessageSpec}
use sctp_conformance.Payload.{materialize_payload}
use sctp_conformance.Session.{Slot, mark_failed, mark_network_complete}
use sctp_conformance.Socket.{Platform}

-- Which of the four functions `run_…_worker` a handler calls, and on what.
pub data Worker : Type 0 where
  no_worker : Worker
  receive_worker : ℤ → List MessageSpec → ℕ → Worker
  pr_receive_worker : ℤ → List MessageSpec → Worker
  receive_multi_target_worker : List ℤ → List MessageSpec → Worker
  send_after_trigger_worker : ℤ → Bytes → List MessageSpec → Worker

-- A message with the fields of `sctp_rcvinfo` that are read.
pub record Message : Type 0 where
  pub payload : Bytes
  pub sid : ℕ
  pub ppid : ℕ
  pub assoc_id : ℕ

-- One return of `sctp_recvv`.
pub data Received : Type 0 where
  recv_error : ℕ → Received
  notification : Received
  message : Message → Received

pub data Verdict : Type 0 where
  waiting : Verdict
  fails : Bytes → Verdict
  completes : Verdict

-- The tests on one message, in order; the text of the failure, or nothing.
unfoldable pub check_message : Bytes → MessageSpec → Message → Option Bytes
unfolding bytes_eq
check_message feature_id expected r =
    if not (bytes_eq (materialize_payload expected) r.payload)
    then some (codes "unexpected payload for feature " ++ feature_id)
    else if not (expected.stream == r.sid)
    then some (codes "unexpected SCTP stream id")
    else if not (expected.ppid == r.ppid)
    then some (codes "unexpected SCTP PPID")
    else none

-- `recv_errno == EWOULDBLOCK || recv_errno == EAGAIN`
abbrev pub is_timeout : Platform → ℕ → Bool
is_timeout platform e = e == platform.ewouldblock || e == platform.eagain

-- The verdict on a failed receive.
unfoldable pub recv_failure : Platform → Bytes → ℕ → Verdict
recv_failure platform text e = fails (if is_timeout platform e then text else platform.strerror e)

-- `expected_messages.back()` of a list behind its first entry.
abbrev pub last_of : MessageSpec → List MessageSpec → MessageSpec
last_of m [] = m
last_of m (x ∷ xs) = last_of x xs

-- The buffer as a C string: up to the first NUL.
unfoldable pub c_string : Bytes → Bytes
c_string [] = []
c_string (c ∷ cs) = if c == 0 then [] else c ∷ c_string cs

module _ (platform : Platform) (feature_id : Bytes) where
  -- The loop of `run_receive_worker` over the expected messages that are left. `peer_addrs` is
  -- `load_peer_addrs` on an association.
  unfoldable pub receive_loop :
      (ℕ → List Bytes) → ℕ → Bool → List MessageSpec → List Received → Verdict
  unfolding recv_failure
  receive_loop peer_addrs count checked [] events = completes
  receive_loop peer_addrs count checked (m ∷ ms) [] = waiting
  receive_loop peer_addrs count checked (m ∷ ms) (recv_error e ∷ events) =
      recv_failure platform (codes "timed out waiting for SCTP client traffic") e
  receive_loop peer_addrs count checked (m ∷ ms) (notification ∷ events) =
      receive_loop peer_addrs count checked (m ∷ ms) events
  receive_loop peer_addrs count checked (m ∷ ms) (message r ∷ events) =
      let now_checking = not checked && ltb 0 count in
      let rest = receive_loop peer_addrs count (checked || now_checking) ms events in
      elim (check_message feature_id m r) [
        | some text ↦ fails text
        | none ↦
            if now_checking && ltb (length (peer_addrs r.assoc_id)) count
            then fails (codes "peer address enumeration did not return enough addresses")
            else rest
      ]

  -- The inner loop of `run_receive_multi_target_worker` on one socket.
  unfoldable pub receive_one : MessageSpec → List Received → Verdict
  unfolding recv_failure
  receive_one m [] = waiting
  receive_one m (recv_error e ∷ events) =
      recv_failure platform (codes "timed out waiting for one-to-many SCTP client traffic") e
  receive_one m (notification ∷ events) = receive_one m events
  receive_one m (message r ∷ events) = elim (check_message feature_id m r) [
    | some text ↦ fails text
    | none ↦ completes
  ]

  -- The outer loop: one expected message for each socket.
  unfoldable pub multi_target_loop : List MessageSpec → List (List Received) → Verdict
  unfolding receive_one
  multi_target_loop [] traces = completes
  multi_target_loop (m ∷ ms) [] = waiting
  multi_target_loop (m ∷ ms) (events ∷ traces) =
      let rest = multi_target_loop ms traces in
      elim (receive_one m events) [ completes ↦ rest | waiting ↦ waiting | fails text ↦ fails text ]

  unfoldable pub run_receive_multi_target :
      List ℤ → List MessageSpec → List (List Received) → Verdict
  unfolding multi_target_loop
  run_receive_multi_target fds expected traces =
      if length fds == length expected
      then multi_target_loop expected traces
      else fails (codes "one-to-many scenario is missing listener sockets")

module _ (platform : Platform) where
  -- The loop of `run_pr_receive_worker`.
  unfoldable pub pr_loop : Bytes → Bytes → Bool → Bool → List Received → Verdict
  unfolding recv_failure bytes_eq
  pr_loop skipped final saw_skipped saw_final [] = waiting
  pr_loop skipped final saw_skipped saw_final (recv_error e ∷ events) =
      if is_timeout platform e && saw_final
      then (if saw_skipped
          then fails (
              codes
                "partially reliable SCTP message was delivered; apply the documented impairment before retrying")
          else completes)
      else recv_failure platform (codes "timed out waiting for partially reliable SCTP traffic") e
  pr_loop skipped final saw_skipped saw_final (notification ∷ events) =
      pr_loop skipped final saw_skipped saw_final events
  pr_loop skipped final saw_skipped saw_final (message r ∷ events) =
      let saw_it = pr_loop skipped final true saw_final events in
      let saw_end = pr_loop skipped final saw_skipped true events in
      if bytes_eq r.payload skipped
      then saw_it
      else if bytes_eq r.payload final
      then saw_end
      else fails (codes "unexpected SCTP payload for PR-SCTP scenario")

  unfoldable pub run_pr_receive : List MessageSpec → List Received → Verdict
  unfolding pr_loop
  run_pr_receive (m ∷ n ∷ ms) events =
      pr_loop (materialize_payload m) (materialize_payload (last_of n ms)) false false events
  run_pr_receive _ events = fails (codes "PR-SCTP feature is missing expected messages")

  -- The sends of `run_send_after_trigger_worker`; each returns nothing or `errno`.
  unfoldable pub send_loop : List MessageSpec → List (Option ℕ) → Verdict
  send_loop [] results = completes
  send_loop (m ∷ ms) [] = waiting
  send_loop (m ∷ ms) (some e ∷ results) = fails (platform.strerror e)
  send_loop (m ∷ ms) (none ∷ results) = send_loop ms results

  unfoldable pub run_send_after_trigger :
      Bytes → List MessageSpec → List (Option ℕ) → List Received → Verdict
  unfolding recv_failure c_string send_loop bytes_eq
  run_send_after_trigger trigger messages results [] = waiting
  run_send_after_trigger trigger messages results (recv_error e ∷ events) =
      recv_failure platform (codes "timed out waiting for trigger message") e
  run_send_after_trigger trigger messages results (notification ∷ events) =
      run_send_after_trigger trigger messages results events
  run_send_after_trigger trigger messages results (message r ∷ events) =
      if not (is_empty trigger) && not (bytes_eq trigger (c_string r.payload))
      then fails (codes "unexpected trigger payload")
      else send_loop messages results

-- The mark that ends a worker, at the time of its lock.
unfoldable pub conclude : ℕ → Verdict → Slot → Slot
conclude now waiting s = s
conclude now (fails text) s = mark_failed now text s
conclude now completes s = mark_network_complete now s
