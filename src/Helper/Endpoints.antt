-- ===== src/Helper/Endpoints.antt =====
-- `apply_subscriptions` and `apply_common_socket_options` of adapters/freebsd_c/helper.c, its addresses,
-- and what `run_server` and `run_client` share.
use sctp_conformance.Base.{
  ℕ, Bool, false, not, ◌&&◌, ◌||◌, List, [], ◌∷◌, ◌++◌, Option, none, some, ltb, ◌==◌,
  if◌then◌else◌, Bytes, codes, bytes_eq, is_empty, decimal, take,
}
use sctp_conformance.Base.Int.{ℤ, pos, negsuc}
use sctp_conformance.Helper.{
  SctpInitmsg, Options, SockaddrIn, Sockaddr, ipv4, other_family, Subscribe, addrs, complete,
  strlcpy, Libc, Calls, success, failure, Run, ends, emit, max_addrs,
}
use sctp_conformance.Helper.Parse.{split_csv, read_subscriptions, parse_addr_list}

abbrev no_events : Subscribe
no_events = record {
  sctp_association_event = false;
  sctp_shutdown_event = false;
  sctp_data_io_event = false;
}

unfoldable pub apply_subscriptions : Calls → Option Bytes → Bool
unfolding split_csv read_subscriptions
apply_subscriptions k none = k.recvrcvinfo
apply_subscriptions k (some raw) =
    if is_empty raw
    then k.recvrcvinfo
    else elim (read_subscriptions no_events (split_csv (strlcpy 256 raw))) [
      | none ↦ false
      | some s ↦ k.events s && k.recvrcvinfo
    ]

-- The test in front of `SCTP_INITMSG`.
unfoldable pub has_initmsg : SctpInitmsg → Bool
has_initmsg m =
    not (m.sinit_num_ostreams == 0)
    || not (m.sinit_max_instreams == 0)
    || not (m.sinit_max_attempts == 0)
    || not (m.sinit_max_init_timeo == 0)

unfoldable pub apply_common_socket_options : Calls → Options → Bool
unfolding has_initmsg apply_subscriptions
apply_common_socket_options k opts =
    (not opts.set_nodelay || k.nodelay)
    && (not (has_initmsg opts.initmsg) || k.init opts.initmsg)
    && apply_subscriptions k opts.subscribe

-- `recv_count < opts->read_messages`
abbrev pub below : ℕ → ℤ → Bool
below count (pos n) = ltb count n
below count (negsuc n) = false

-- `opts->expect_failure` is one of the two texts.
unfoldable pub expects : Options → Bytes → Bool
unfolding bytes_eq
expects opts stage = elim opts.expect_failure [
  | none ↦ false
  | some text ↦ bytes_eq text stage || bytes_eq text (codes "connect_or_send")
]

-- The same without the second text.
unfoldable pub expects_only : Options → Bytes → Bool
unfolding bytes_eq
expects_only opts stage = elim opts.expect_failure [
  | none ↦ false
  | some text ↦ bytes_eq text stage
]

-- The start of `run_server` and `run_client`, up to the addresses.
unfoldable pub with_addrs : Libc → Option Bytes → (List SockaddrIn → Run) → Run
unfolding parse_addr_list
with_addrs libc none run = ends [] [] (failure [])
with_addrs libc (some raw) run = elim (parse_addr_list libc (strlcpy 256 raw)) [
  | none ↦ ends [] [] (failure [])
  | some list ↦ run list
]

-- `close(fd); return (-1);`
abbrev pub close_and_fail : Calls → Bytes → Run
close_and_fail k fatal_error = ends [] (k.socket ∷ []) (failure fatal_error)

-- The end of `run_server` and `run_client`.
abbrev pub close_and_return : Calls → ℕ → Bytes → Run
close_and_return k count field = emit (complete count field) (ends [] (k.socket ∷ []) success)

module _ (libc : Libc) where
  unfoldable pub format_sockaddr : Sockaddr → Option Bytes
  unfolding decimal
  format_sockaddr other_family = none
  format_sockaddr (ipv4 a) = elim (libc.inet_ntop a.sin_addr) [
    | none ↦ none
    | some host ↦ some (take 63 (host ++ (codes ":" ++ decimal a.sin_port)))
  ]

  -- The loop of `load_laddrs` and `load_paddrs`.
  unfoldable pub format_all : List Sockaddr → Option (List Bytes)
  unfolding format_sockaddr
  format_all [] = some []
  format_all (a ∷ rest) = elim (format_sockaddr a) [
    | none ↦ none
    | some text ↦ elim (format_all rest) [ none ↦ none | some texts ↦ some (text ∷ texts) ]
  ]

  -- `load_laddrs` and `load_paddrs` on what `sctp_getladdrs` and `sctp_getpaddrs` give.
  unfoldable pub load_addrs : List Sockaddr → Option (List Bytes)
  unfolding format_all
  load_addrs [] = none
  load_addrs (a ∷ rest) = format_all (take max_addrs (a ∷ rest))

  -- A call of `emit_addrs` where the addresses are asked for and there.
  unfoldable pub emit_loaded : Bool → Bytes → List Sockaddr → Run → Run
  unfolding load_addrs
  emit_loaded asked event list run =
      if asked
      then elim (load_addrs list) [ none ↦ run | some texts ↦ emit (addrs event texts) run ]
      else run
