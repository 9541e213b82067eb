-- ===== src/Helper/Server.antt =====
-- `run_server` of adapters/freebsd_c/helper.c.
use sctp_conformance.Base.{
  ℕ, suc, not, ◌&&◌, List, [], ◌∷◌, Option, none, some, ltb, ◌==◌, if◌then◌else◌, Bytes, codes,
  length, drop, map,
}
use sctp_conformance.Base.Int.{is_nonneg}
use sctp_conformance.Worker.{c_string}
use sctp_conformance.Helper.{
  Options, SockaddrIn, ipv4, ready, recv, notify, Libc, Received, recv_error, notification, message,
  Calls, failure, Run, waits, ends, emit,
}
use sctp_conformance.Helper.Endpoints.{
  apply_common_socket_options, with_addrs, close_and_fail, close_and_return, format_all, load_addrs,
  emit_loaded, below,
}

-- `sin_port` of each.
unfoldable pub set_ports : ℕ → List SockaddrIn → List SockaddrIn
set_ports port [] = []
set_ports port (a ∷ rest) = record a { sin_port = port } ∷ set_ports port rest

-- Entry 0 of the array of addresses.
abbrev pub first_addr : SockaddrIn → List SockaddrIn → SockaddrIn
first_addr garbage [] = garbage
first_addr garbage (a ∷ rest) = a

module _ (libc : Libc) (k : Calls) (opts : Options) where
  -- The loop of `run_server`.
  unfoldable pub receive_loop : ℕ → List Received → Run
  unfolding c_string emit_loaded
  receive_loop recv_count [] =
      if below recv_count opts.read_messages
      then waits []
      else close_and_return k recv_count (codes "recv_count")
  receive_loop recv_count (recv_error ∷ rs) =
      if below recv_count opts.read_messages
      then close_and_fail k []
      else close_and_return k recv_count (codes "recv_count")
  receive_loop recv_count (notification type flags ∷ rs) =
      let rest = emit (notify type flags) (receive_loop recv_count rs) in
      if below recv_count opts.read_messages
      then rest
      else close_and_return k recv_count (codes "recv_count")
  receive_loop recv_count (message payload sid ppid assoc_id ∷ rs) =
      let rest = emit (recv (c_string payload) sid ppid assoc_id) (
        emit_loaded libc (opts.emit_peer_addrs && recv_count == 0) (codes "peer_addrs")
          (k.getpaddrs assoc_id) (receive_loop (suc recv_count) rs)) in
      if below recv_count opts.read_messages
      then rest
      else close_and_return k recv_count (codes "recv_count")

  -- The addresses of `emit_ready`.
  unfoldable pub ready_addrs : List SockaddrIn → Option (List Bytes)
  unfolding load_addrs set_ports format_all
  ready_addrs bind_addrs = elim (load_addrs libc k.future_laddrs) [
    | some texts ↦ some texts
    | none ↦ elim k.local_port [
      | none ↦ none
      | some port ↦ format_all libc (map ipv4 (set_ports port bind_addrs))
    ]
  ]

  -- `run_server` from `listen` on.
  unfoldable pub serve : List SockaddrIn → Run
  unfolding ready_addrs receive_loop
  serve bind_addrs =
      if k.listen
      then elim (ready_addrs bind_addrs) [
        | none ↦ close_and_fail k []
        | some texts ↦ emit (ready texts) (receive_loop 0 k.recvv)
      ]
      else close_and_fail k []

  -- The addresses behind the first.
  unfoldable pub bind_rest : List SockaddrIn → Run
  unfolding serve set_ports
  bind_rest bind_addrs =
      if ltb 1 (length bind_addrs)
      then elim k.bind_port [
        | none ↦ close_and_fail k []
        | some port ↦
            if k.bindx (set_ports port (drop 1 bind_addrs))
            then serve bind_addrs
            else close_and_fail k []
      ]
      else serve bind_addrs

  -- `run_server` from `socket` on.
  unfoldable pub bind_server : List SockaddrIn → Run
  unfolding apply_common_socket_options bind_rest
  bind_server bind_addrs =
      if not (is_nonneg k.socket)
      then ends [] [] (failure [])
      else if not (apply_common_socket_options k opts)
      then close_and_fail k []
      else if k.bind (first_addr k.garbage bind_addrs)
      then bind_rest bind_addrs
      else close_and_fail k []

  unfoldable pub run_server : Run
  unfolding with_addrs bind_server
  run_server = with_addrs libc opts.bind_addrs bind_server
