-- ===== src/Helper/Exchange.antt =====
-- `run_client` of adapters/freebsd_c/helper.c against `run_receive_worker` of
-- server/freebsd_ref/main.cpp.
use sctp_conformance.Base.{
  ℕ, ◌≤◌, ◌<◌, ◌≡◌, refl, ap, ◌∙◌, arith, Bool, true, false, List, [], ◌∷◌, ◌++◌, Option, none,
  some, Bytes, codes, Option-cases, Bool-cases, inl, inr, All, length, map,
}
use sctp_conformance.Base.Int.{is_nonneg}
use sctp_conformance.Feature
use sctp_conformance.Payload.{materialize_payload}
use sctp_conformance.Socket.{Platform}
use sctp_conformance.Worker
use sctp_conformance.Worker.{completes}
use sctp_conformance.Worker.Delivery.{
  Content, StartsWith, wanted, delivered, receive_loop_completes_iff,
}
use sctp_conformance.Helper.{
  MessageSpec, Options, SockaddrIn, Sockaddr, Event, addrs, sent, Libc, Calls, success, failure,
  Run, waits, ends, emit, strlcpy,
}
use sctp_conformance.Helper.Parse.{parse_addr_list}
use sctp_conformance.Helper.Endpoints.{
  apply_common_socket_options, expects, expects_only, emit_loaded, load_addrs, with_addrs,
}
use sctp_conformance.Helper.Client.{
  failed_call, send_loop, client_messages, send_messages, on_association, connect_client,
  run_client,
}
use sctp_conformance.Helper.Released.{connected-cases}
use sctp_conformance.Helper.Exit.{succeeds}
use sctp_conformance.Helper.Reports.{events_of}
use sctp_conformance.Helper.Messages.{Fits, messages_text, client_messages_told}

-- What the lines of a run say was sent.
abbrev pub sent_contents : List Event → List Content
sent_contents [] = []
sent_contents (sent payload stream ppid ∷ events) =
    record { payload = payload; stream = stream; ppid = ppid } ∷ sent_contents events
sent_contents (_ ∷ events) = sent_contents events

abbrev contents : List MessageSpec → List Content
contents [] = []
contents (m ∷ ms) = record { payload = m.payload; stream = m.stream; ppid = m.ppid } ∷ contents ms

-- A message of a contract as the helper is told to send it.
abbrev pub to_send : Feature.MessageSpec → MessageSpec
to_send m = record { payload = materialize_payload m; stream = m.stream; ppid = m.ppid }

contents-to_send : (ms : List Feature.MessageSpec) → contents (map to_send ms) ≡ wanted ms
contents-to_send [] = refl
contents-to_send (m ∷ ms) =
    ap
      (λ (x : List Content).
        record { payload = materialize_payload m; stream = m.stream; ppid = m.ppid } ∷ x)
      (contents-to_send ms)

-- A run that returns 0 says that it has sent these.
abbrev Sends : List Content → Run → Type 0
Sends list run = succeeds run ≡ true → sent_contents (events_of run) ≡ list

addrs-Sends :
    (event : Bytes) (texts : List Bytes) (list : List Content) (run : Run)
    → Sends list run
    → Sends list (emit (addrs event texts) run)
addrs-Sends event texts list (waits events) h = λ s. absurd (ground arith)
addrs-Sends event texts list (ends events fds success) h = λ s. h refl
addrs-Sends event texts list (ends events fds (failure text)) h = λ s. absurd (ground arith)

sent-Sends :
    (payload : Bytes) (stream ppid : ℕ) (list : List Content) (run : Run)
    → Sends list run
    → Sends
        (record { payload = payload; stream = stream; ppid = ppid } ∷ list)
        (emit (sent payload stream ppid) run)
sent-Sends payload stream ppid list (waits events) h = λ s. absurd (ground arith)
sent-Sends payload stream ppid list (ends events fds success) h = λ s.
    ap (λ (x : List Content). record { payload = payload; stream = stream; ppid = ppid } ∷ x)
      (h refl)
sent-Sends payload stream ppid list (ends events fds (failure text)) h = λ s. absurd (ground arith)

module _ (libc : Libc) (k : Calls) (opts : Options) (plain : opts.expect_failure ≡ none) where
  unexpected : (stage : Bytes) → (expects opts stage ≡ false) × (expects_only opts stage ≡ false)
  unfolding expects expects_only
  unexpected stage = ground arith

  failed_call-Sends :
      (stage : Bytes) (errno : ℕ) (list : List Content)
      → Sends list (failed_call libc k opts stage errno)
  unfolding failed_call
  failed_call-Sends stage errno list =
      rw ((unexpected stage).0, failed_call) (λ s. absurd (ground arith))

  emit_loaded-Sends :
      (asked : Bool) (event : Bytes) (addresses : List Sockaddr) (list : List Content) (run : Run)
      → Sends list run
      → Sends list (emit_loaded libc asked event addresses run)
  unfolding emit_loaded
  emit_loaded-Sends false event addresses list run h = h
  emit_loaded-Sends true event addresses list run h =
      elim (Option-cases (load_addrs libc addresses)) [
        | inl lost ↦ rw (lost, emit_loaded) h
        | inr (texts, there) ↦ rw (there, emit_loaded) (addrs-Sends event texts list run h)
      ]

  send_loop-Sends :
      (count : ℕ) (ms : List MessageSpec) (results : List (Option ℕ))
      → Sends (contents ms) (send_loop libc k opts count ms results)
  unfolding send_loop
  send_loop-Sends count [] results = rw ((unexpected (codes "send")).0, send_loop) (λ s. refl)
  send_loop-Sends count (m ∷ ms) [] = λ s. absurd (ground arith)
  send_loop-Sends count (m ∷ ms) (some e ∷ results) = failed_call-Sends (codes "send") e _
  send_loop-Sends count (m ∷ ms) (none ∷ results) =
      sent-Sends m.payload m.stream m.ppid _ _ (send_loop-Sends count ms results)

  module _ (ms : List MessageSpec) (given : client_messages libc k opts ≡ some ms) where
    send_messages-Sends : Sends (contents ms) (send_messages libc k opts)
    unfolding send_messages
    send_messages-Sends = rw (given, send_messages) (send_loop-Sends (length ms) ms k.sendv)

    on_association-Sends :
        (assoc_id : ℕ) → Sends (contents ms) (on_association libc k opts assoc_id)
    unfolding on_association
    on_association-Sends assoc_id =
        rw ((unexpected (codes "connect")).1, on_association)
          (emit_loaded-Sends opts.emit_local_addrs _ _ _ _
            (emit_loaded-Sends opts.emit_peer_addrs _ _ _ _ send_messages-Sends))

    connect_client-Sends :
        (list : List SockaddrIn) → Sends (contents ms) (connect_client libc k opts list)
    unfolding connect_client
    connect_client-Sends list = elim (Bool-cases (is_nonneg k.socket)) [
      | inr none_there ↦ rw (none_there, connect_client) (λ s. absurd (ground arith))
      | inl live ↦ elim (Bool-cases (apply_common_socket_options k opts)) [
        | inr refused ↦
            rw (live, connect_client) (rw (refused, connect_client) (λ s. absurd (ground arith)))
        | inl set ↦ elim (connected-cases (k.connectx list)) [
          | inl (assoc_id, there) ↦
              rw (live, connect_client)
                (rw (set, connect_client)
                  (rw (there, connect_client) (on_association-Sends assoc_id)))
          | inr (errno, lost) ↦
              rw (live, connect_client)
                (rw (set, connect_client)
                  (rw (lost, connect_client)
                    (failed_call-Sends (codes "connect") errno (contents ms))))
        ]
      ]
    ]

    with_addrs-Sends :
        (raw : Option Bytes)
        → Sends (contents ms) (with_addrs libc raw (connect_client libc k opts))
    unfolding with_addrs
    with_addrs-Sends none = λ s. absurd (ground arith)
    with_addrs-Sends (some raw) = elim (Option-cases (parse_addr_list libc (strlcpy 256 raw))) [
      | inl bad ↦ rw (bad, with_addrs) (λ s. absurd (ground arith))
      | inr (list, good) ↦ rw (good, with_addrs) (connect_client-Sends list)
    ]

    run_client-Sends : Sends (contents ms) (run_client libc k opts)
    unfolding run_client
    run_client-Sends = with_addrs-Sends opts.connect_addrs

-- The two ends of a scenario agree. A feature expects messages without ',' or ':' that fit the
-- helper's buffers, at most 16 of them and shorter than 512 bytes in all; the helper is given them as
-- its --messages, expects no failure, and returns 0. Then the lines that it prints name just these
-- messages, and a worker of that feature, which asks for no peer addresses, completes on every trace
-- that starts with what those lines name, whatever notifications come in between.
pub client_completes_worker :
    (libc : Libc) (k : Calls) (opts : Options) (platform : Platform) (feature_id : Bytes)
    (peer_addrs : ℕ → List Bytes) (ms : List Feature.MessageSpec) (events : List Worker.Received)
    → opts.expect_failure ≡ none
    → opts.messages ≡ some (messages_text (map to_send ms))
    → All Fits (map to_send ms)
    → length (map to_send ms) ≤ 16
    → length (messages_text (map to_send ms)) < 512
    → succeeds (run_client libc k opts) ≡ true
    → StartsWith (sent_contents (events_of (run_client libc k opts))) (delivered events)
    → (sent_contents (events_of (run_client libc k opts)) ≡ wanted ms)
      × (Worker.receive_loop platform feature_id peer_addrs 0 false ms events ≡ completes)
client_completes_worker libc k opts platform feature_id peer_addrs ms events plain told fit few
      short ok (rest, e) =
    let given : client_messages libc k opts ≡ some (map to_send ms) =
      client_messages_told libc k opts (map to_send ms) told fit few short in
    let same = run_client-Sends libc k opts plain (map to_send ms) given ok ∙ contents-to_send ms in
    (
      same,
      (receive_loop_completes_iff platform feature_id peer_addrs 0 events ms refl).1
          (rest, e ∙ ap (λ (x : List Content). x ++ rest) same),
    )
