-- ===== src/Helper/Client.antt =====
-- `run_client` of adapters/freebsd_c/helper.c.
use sctp_conformance.Base.{
  ℕ, not, List, [], ◌∷◌, Option, none, some, if◌then◌else◌, Bytes, codes, length,
}
use sctp_conformance.Base.Int.{is_nonneg}
use sctp_conformance.Helper.{
  MessageSpec, Options, SockaddrIn, sent, expected_failure, strlcpy, Libc, connected, connect_error,
  Calls, success, failure, Run, waits, ends, emit,
}
use sctp_conformance.Helper.Parse.{parse_messages}
use sctp_conformance.Helper.Endpoints.{
  apply_common_socket_options, expects, expects_only, with_addrs, close_and_fail, close_and_return,
  emit_loaded,
}

module _ (libc : Libc) (k : Calls) (opts : Options) where
  -- An error of the kernel, which may be the one that is expected.
  unfoldable pub failed_call : Bytes → ℕ → Run
  unfolding expects
  failed_call stage errno =
      if expects opts stage
      then emit (expected_failure stage (libc.strerror errno)) (ends [] (k.socket ∷ []) success)
      else close_and_fail k []

  -- The loop over the messages, and what is behind it.
  unfoldable pub send_loop : ℕ → List MessageSpec → List (Option ℕ) → Run
  unfolding failed_call expects
  send_loop message_count [] results =
      if expects opts (codes "send")
      then close_and_fail k (strlcpy 256 (codes "send succeeded unexpectedly"))
      else close_and_return k message_count (codes "sent_count")
  send_loop message_count (m ∷ ms) [] = waits []
  send_loop message_count (m ∷ ms) (some errno ∷ results) = failed_call (codes "send") errno
  send_loop message_count (m ∷ ms) (none ∷ results) =
      emit (sent m.payload m.stream m.ppid) (send_loop message_count ms results)

  -- The messages of the command line.
  unfoldable pub client_messages : Option (List MessageSpec)
  unfolding parse_messages
  client_messages = elim opts.messages [
    | none ↦ some []
    | some raw ↦ parse_messages (strlcpy 512 raw)
  ]

  unfoldable pub send_messages : Run
  unfolding client_messages send_loop
  send_messages = elim client_messages [
    | none ↦ close_and_fail k []
    | some messages ↦ send_loop (length messages) messages k.sendv
  ]

  -- `run_client` on an association.
  unfoldable pub on_association : ℕ → Run
  unfolding expects_only emit_loaded send_messages
  on_association assoc_id =
      if expects_only opts (codes "connect")
      then close_and_fail k (strlcpy 256 (codes "connect succeeded unexpectedly"))
      else emit_loaded libc opts.emit_local_addrs (codes "local_addrs") (k.getladdrs assoc_id) (
          emit_loaded libc opts.emit_peer_addrs (codes "peer_addrs") (k.getpaddrs assoc_id)
            send_messages)

  -- `run_client` from `socket` on.
  unfoldable pub connect_client : List SockaddrIn → Run
  unfolding apply_common_socket_options failed_call on_association
  connect_client connect_addrs =
      if not (is_nonneg k.socket)
      then ends [] [] (failure [])
      else if not (apply_common_socket_options k opts)
      then close_and_fail k []
      else elim (k.connectx connect_addrs) [
        | connect_error errno ↦ failed_call (codes "connect") errno
        | connected assoc_id ↦ on_association assoc_id
      ]

  unfoldable pub run_client : Run
  unfolding with_addrs connect_client
  run_client = with_addrs libc opts.connect_addrs connect_client
