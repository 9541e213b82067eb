-- ===== src/Helper/Released.antt =====
-- The descriptor of `run_server` and `run_client` of adapters/freebsd_c/helper.c.
use sctp_conformance.Base.{
  ℕ, suc, Bool, true, false, ◌&&◌, List, [], ◌∷◌, Option, none, some, ◌≡◌, refl, arith, ◌==◌,
  if◌then◌else◌, Bytes, codes, Option-cases, length, inl, inr, ◌⊎◌,
}
use sctp_conformance.Base.Int.{ℤ, is_nonneg}
use sctp_conformance.Helper.{
  MessageSpec, Options, SockaddrIn, Sockaddr, Event, ready, addrs, recv, notify, Libc, Received,
  recv_error, notification, message, Connected, connected, connect_error, Calls, Run, waits, ends,
  emit, strlcpy,
}
use sctp_conformance.Worker.{c_string}
use sctp_conformance.Helper.Parse.{parse_addr_list}
use sctp_conformance.Helper.Endpoints.{emit_loaded, load_addrs, with_addrs}
use sctp_conformance.Helper.Server.{
  receive_loop, ready_addrs, serve, bind_rest, bind_server, run_server,
}
use sctp_conformance.Helper.Client.{
  connect_client, send_messages, failed_call, send_loop, client_messages, on_association,
  run_client,
}

-- The addresses of a run can be read, so that it asks for a socket.
abbrev pub can_read : Libc → Option Bytes → Bool
can_read libc none = false
can_read libc (some raw) = elim (parse_addr_list libc (strlcpy 256 raw)) [
  | none ↦ false
  | some list ↦ true
]

-- What is closed, where a socket has been opened.
abbrev pub handed_back : Bool → ℤ → List ℤ
handed_back opened fd = if opened then fd ∷ [] else []

-- A run that still waits has a socket open; one that ends has closed it, and nothing else.
abbrev pub Released : Bool → ℤ → Run → Type 0
Released opened fd (waits events) = opened ≡ true
Released opened fd (ends events fds rc) = fds ≡ handed_back opened fd

pub connected-cases :
    (c : Connected) → ((a : ℕ) × (c ≡ connected a)) ⊎ ((e : ℕ) × (c ≡ connect_error e))
connected-cases (connected a) = inl (a, refl)
connected-cases (connect_error e) = inr (e, refl)

emit-Released :
    (opened : Bool) (fd : ℤ) (e : Event) (run : Run)
    → Released opened fd run
    → Released opened fd (emit e run)
emit-Released opened fd e (waits events) h = h
emit-Released opened fd e (ends events fds rc) h = h

module _ (libc : Libc) (k : Calls) (opts : Options) where
  emit_loaded-Released :
      (asked : Bool) (event : Bytes) (list : List Sockaddr) (run : Run)
      → Released true k.socket run
      → Released true k.socket (emit_loaded libc asked event list run)
  unfolding emit_loaded
  emit_loaded-Released false event list run h = h
  emit_loaded-Released true event list run h = elim (Option-cases (load_addrs libc list)) [
    | inl lost ↦ rw lost h
    | inr (texts, there) ↦ rw there (emit-Released true k.socket (addrs event texts) run h)
  ]

  receive_loop-Released :
      (count : ℕ) (rs : List Received) → Released true k.socket (receive_loop libc k opts count rs)
  unfolding receive_loop
  receive_loop-Released count [] = ground arith
  receive_loop-Released count (recv_error ∷ rs) = ground arith
  receive_loop-Released count (notification type flags ∷ rs) =
      ground
        (arith, emit-Released true k.socket (notify type flags) _ (receive_loop-Released count rs))
  receive_loop-Released count (message payload sid ppid assoc_id ∷ rs) = ground (
    arith,
    emit-Released true k.socket (recv (c_string payload) sid ppid assoc_id) _ (
        emit_loaded-Released (opts.emit_peer_addrs && count == 0) (codes "peer_addrs")
          (k.getpaddrs assoc_id) _ (receive_loop-Released (suc count) rs)),
  )

  send_loop-Released :
      (count : ℕ) (ms : List MessageSpec) (results : List (Option ℕ))
      → Released true k.socket (send_loop libc k opts count ms results)
  unfolding send_loop failed_call
  send_loop-Released count [] results = ground arith
  send_loop-Released count (m ∷ ms) [] = refl
  send_loop-Released count (m ∷ ms) (some e ∷ results) = ground arith
  send_loop-Released count (m ∷ ms) (none ∷ results) =
      emit-Released true k.socket _ _ (send_loop-Released count ms results)

  serve-Released : (list : List SockaddrIn) → Released true k.socket (serve libc k opts list)
  unfolding serve
  serve-Released list = elim (Option-cases (ready_addrs libc k opts list)) [
    | inl lost ↦ rw lost (ground arith)
    | inr (texts, there) ↦ rw there (
        ground
          (arith, emit-Released true k.socket (ready texts) _ (receive_loop-Released 0 k.recvv)))
  ]

  bind_rest-Released :
      (list : List SockaddrIn) → Released true k.socket (bind_rest libc k opts list)
  unfolding bind_rest
  bind_rest-Released list = ground (arith, serve-Released list)

  send_messages-Released : Released true k.socket (send_messages libc k opts)
  unfolding send_messages
  send_messages-Released = elim (Option-cases (client_messages libc k opts)) [
    | inl bad ↦ rw (bad, Released, send_messages) refl
    | inr (ms, good) ↦
        rw (good, Released, send_messages) (send_loop-Released (length ms) ms k.sendv)
  ]

  on_association-Released :
      (assoc_id : ℕ) → Released true k.socket (on_association libc k opts assoc_id)
  unfolding on_association
  on_association-Released assoc_id = ground (
    arith,
    emit_loaded-Released opts.emit_local_addrs (codes "local_addrs") (k.getladdrs assoc_id) _ (
        emit_loaded-Released opts.emit_peer_addrs (codes "peer_addrs") (k.getpaddrs assoc_id) _
          send_messages-Released),
  )

  bind_server-Released :
      (list : List SockaddrIn)
      → Released (is_nonneg k.socket) k.socket (bind_server libc k opts list)
  unfolding bind_server
  bind_server-Released list = ground (arith, bind_rest-Released list)

  connect_client-Released :
      (list : List SockaddrIn)
      → Released (is_nonneg k.socket) k.socket (connect_client libc k opts list)
  unfolding connect_client failed_call
  connect_client-Released list = elim (connected-cases (k.connectx list)) [
    | inl (assoc_id, there) ↦ rw there (ground (arith, on_association-Released assoc_id))
    | inr (errno, lost) ↦ rw lost (ground arith)
  ]

  with_addrs-Released :
      (raw : Option Bytes) (run : List SockaddrIn → Run)
      → ((list : List SockaddrIn) → Released (is_nonneg k.socket) k.socket (run list))
      → Released (can_read libc raw && is_nonneg k.socket) k.socket (with_addrs libc raw run)
  unfolding with_addrs
  with_addrs-Released none run h = refl
  with_addrs-Released (some raw) run h =
      elim (Option-cases (parse_addr_list libc (strlcpy 256 raw))) [
        | inl bad ↦ ground arith
        | inr (list, good) ↦ ground (arith, h list)
      ]

  pub run_server-Released :
      Released
        (can_read libc opts.bind_addrs && is_nonneg k.socket)
        k.socket
        (run_server libc k opts)
  unfolding run_server
  run_server-Released =
      with_addrs-Released opts.bind_addrs (bind_server libc k opts) bind_server-Released

  pub run_client-Released :
      Released
        (can_read libc opts.connect_addrs && is_nonneg k.socket)
        k.socket
        (run_client libc k opts)
  unfolding run_client
  run_client-Released =
      with_addrs-Released opts.connect_addrs (connect_client libc k opts) connect_client-Released
