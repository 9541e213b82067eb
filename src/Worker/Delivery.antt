-- ===== src/Worker/Delivery.antt =====
-- The workers that receive, and their traces.
use sctp_conformance.Base.{
  ℕ, ◌≡◌, ◌↔◌, refl, arith, Bool, false, not, ◌&&◌, ◌||◌, List, [], ◌∷◌, ◌++◌, none, ltb, Bytes,
  bytes_eq_iff, length,
}
use sctp_conformance.Base.Int.{ℤ}
use sctp_conformance.Feature.{MessageSpec}
use sctp_conformance.Payload.{materialize_payload}
use sctp_conformance.Socket.{Platform}
use sctp_conformance.Worker.{
  Message, Received, recv_error, notification, message, completes, check_message, receive_loop,
  receive_one, multi_target_loop, run_receive_multi_target,
}

-- What the tests look at.
pub record Content : Type 0 where
  pub payload : Bytes
  pub stream : ℕ
  pub ppid : ℕ

-- The contents received before the first error, notifications left out.
abbrev pub delivered : List Received → List Content
delivered [] = []
delivered (recv_error e ∷ events) = []
delivered (notification ∷ events) = delivered events
delivered (message r ∷ events) =
    record { payload = r.payload; stream = r.sid; ppid = r.ppid } ∷ delivered events

abbrev pub wanted : List MessageSpec → List Content
wanted [] = []
wanted (m ∷ ms) =
    record { payload = materialize_payload m; stream = m.stream; ppid = m.ppid } ∷ wanted ms

-- A trace starts with the messages, in order.
abbrev pub StartsWith : List Content → List Content → Type 0
StartsWith xs ys = (rest : List Content) × (ys ≡ xs ++ rest)

abbrev pub content : Message → Content
content r = record { payload = r.payload; stream = r.sid; ppid = r.ppid }

abbrev pub wanted_content : MessageSpec → Content
wanted_content m = record { payload = materialize_payload m; stream = m.stream; ppid = m.ppid }

check_message-none :
    (feature_id : Bytes) (m : MessageSpec) (r : Message)
    → check_message feature_id m r ≡ none
    → content r ≡ wanted_content m
unfolding check_message
check_message-none feature_id m r h = ground (arith, bytes_eq_iff (materialize_payload m) r.payload)

check_message-same :
    (feature_id : Bytes) (m : MessageSpec) (r : Message)
    → content r ≡ wanted_content m
    → check_message feature_id m r ≡ none
unfolding check_message
check_message-same feature_id m r h = ground (arith, bytes_eq_iff (materialize_payload m) r.payload)

module _ (platform : Platform) (feature_id : Bytes) (peer_addrs : ℕ → List Bytes) (count : ℕ) where
  -- `run_receive_worker` completes only on a trace that starts with the expected messages, in
  -- order and before any error, each with its payload, stream and PPID.
  pub receive_loop_sound :
      (events : List Received) (ms : List MessageSpec) (checked : Bool)
      → receive_loop platform feature_id peer_addrs count checked ms events ≡ completes
      → StartsWith (wanted ms) (delivered events)
  unfolding receive_loop
  receive_loop_sound events [] checked h = (delivered events, refl)
  receive_loop_sound [] (m ∷ ms) checked h = absurd (ground arith)
  receive_loop_sound (recv_error e ∷ events) (m ∷ ms) checked h = absurd (ground arith)
  receive_loop_sound (notification ∷ events) (m ∷ ms) checked h =
      receive_loop_sound events (m ∷ ms) checked h
  receive_loop_sound (message r ∷ events) (m ∷ ms) checked h =
      let same : content r ≡ wanted_content m = ground (arith, check_message-none feature_id m r) in
      let (rest, e) =
        receive_loop_sound events ms (checked || (not checked && ltb 0 count)) (ground arith) in
      (rest, ground arith)

  receive_loop_complete :
      (events : List Received) (ms : List MessageSpec) (checked : Bool)
      → count ≡ 0
      → StartsWith (wanted ms) (delivered events)
      → receive_loop platform feature_id peer_addrs count checked ms events ≡ completes
  unfolding receive_loop
  receive_loop_complete events [] checked z h = refl
  receive_loop_complete [] (m ∷ ms) checked z (rest, e) = absurd (ground arith)
  receive_loop_complete (recv_error e ∷ events) (m ∷ ms) checked z (rest, p) = absurd (ground arith)
  receive_loop_complete (notification ∷ events) (m ∷ ms) checked z h =
      receive_loop_complete events (m ∷ ms) checked z h
  receive_loop_complete (message r ∷ events) (m ∷ ms) checked z (rest, e) =
      let same : content r ≡ wanted_content m = ground arith in
      let later : StartsWith (wanted ms) (delivered events) = (rest, ground arith) in
      ground (
        arith,
        check_message-same feature_id m r same,
        receive_loop_complete events ms (checked || (not checked && ltb 0 count)) z later,
      )

  -- Where no peer addresses are asked for, `run_receive_worker` completes exactly on the traces
  -- that start with the expected messages, in order and before any error, each with its payload,
  -- stream and PPID; notifications do not matter.
  pub receive_loop_completes_iff :
      (events : List Received) (ms : List MessageSpec)
      → count ≡ 0
      → (receive_loop platform feature_id peer_addrs count false ms events ≡ completes)
        ↔ StartsWith (wanted ms) (delivered events)
  receive_loop_completes_iff events ms z =
      (receive_loop_sound events ms false, receive_loop_complete events ms false z)

module _ (platform : Platform) (feature_id : Bytes) where
  -- Each socket delivers its own message first.
  abbrev pub FirstsAre : List MessageSpec → List (List Received) → Type 0
  FirstsAre [] traces = Unit
  FirstsAre (m ∷ ms) [] = ⊥
  FirstsAre (m ∷ ms) (events ∷ traces) =
      StartsWith (wanted_content m ∷ []) (delivered events) × FirstsAre ms traces

  receive_one_sound :
      (m : MessageSpec) (events : List Received)
      → receive_one platform feature_id m events ≡ completes
      → StartsWith (wanted_content m ∷ []) (delivered events)
  unfolding receive_one
  receive_one_sound m [] h = absurd (ground arith)
  receive_one_sound m (recv_error e ∷ events) h = absurd (ground arith)
  receive_one_sound m (notification ∷ events) h = receive_one_sound m events h
  receive_one_sound m (message r ∷ events) h =
      (delivered events, ground (arith, check_message-none feature_id m r))

  receive_one_complete :
      (m : MessageSpec) (events : List Received)
      → StartsWith (wanted_content m ∷ []) (delivered events)
      → receive_one platform feature_id m events ≡ completes
  unfolding receive_one
  receive_one_complete m [] (rest, e) = absurd (ground arith)
  receive_one_complete m (recv_error c ∷ events) (rest, e) = absurd (ground arith)
  receive_one_complete m (notification ∷ events) h = receive_one_complete m events h
  receive_one_complete m (message r ∷ events) (rest, e) =
      let same : content r ≡ wanted_content m = ground arith in
      ground (arith, check_message-same feature_id m r same)

  multi_target_sound :
      (ms : List MessageSpec) (traces : List (List Received))
      → multi_target_loop platform feature_id ms traces ≡ completes
      → FirstsAre ms traces
  unfolding multi_target_loop
  multi_target_sound [] traces h = tt
  multi_target_sound (m ∷ ms) [] h = cc
  multi_target_sound (m ∷ ms) (events ∷ traces) h =
      (receive_one_sound m events (ground arith), multi_target_sound ms traces (ground arith))

  multi_target_complete :
      (ms : List MessageSpec) (traces : List (List Received))
      → FirstsAre ms traces
      → multi_target_loop platform feature_id ms traces ≡ completes
  unfolding multi_target_loop
  multi_target_complete [] traces h = refl
  multi_target_complete (m ∷ ms) [] h = absurd h
  multi_target_complete (m ∷ ms) (events ∷ traces) h =
      ground (arith, receive_one_complete m events h.0, multi_target_complete ms traces h.1)

  -- `run_receive_multi_target_worker` completes exactly if there is a socket for each message and
  -- the first message on each socket is the one expected there.
  pub run_receive_multi_target_completes_iff :
      (fds : List ℤ) (ms : List MessageSpec) (traces : List (List Received))
      → (run_receive_multi_target platform feature_id fds ms traces ≡ completes)
        ↔ ((length fds ≡ length ms) × FirstsAre ms traces)
  unfolding run_receive_multi_target
  run_receive_multi_target_completes_iff fds ms traces = (
    λ h. (ground arith, multi_target_sound ms traces (ground arith)),
    λ h. ground (arith, multi_target_complete ms traces h.1),
  )
