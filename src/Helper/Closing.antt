-- ===== src/Helper/Closing.antt =====
-- The descriptor of a process of adapters/freebsd_c/helper.c.
use sctp_conformance.Base.{
  Bool, true, false, ◌&&◌, List, [], ◌∷◌, none, some, ◌≡◌, refl, arith, if◌then◌else◌, Bytes, codes,
  bytes_eq, Option-cases, inl, inr,
}
use sctp_conformance.Base.Int.{ℤ, is_nonneg}
use sctp_conformance.Helper.{
  Options, Libc, Calls, success, failure, Run, waits, ends, Process, blocked, exited,
}
use sctp_conformance.Helper.Args.{parse_options}
use sctp_conformance.Helper.Main.{report, run_mode, main}
use sctp_conformance.Helper.Released.{can_read, Released, run_server-Released, run_client-Released}

-- The mode and its addresses lead to a socket.
abbrev asks_mode : Libc → Options → Bool
asks_mode libc opts =
    if bytes_eq opts.mode (codes "server")
    then can_read libc opts.bind_addrs
    else if bytes_eq opts.mode (codes "client")
    then can_read libc opts.connect_addrs
    else false

-- The arguments lead to a socket.
abbrev pub asks : Libc → List Bytes → Bool
asks libc args = elim (parse_options args) [ none ↦ false | some opts ↦ asks_mode libc opts ]

-- A process that still waits has a socket open; one that exits has closed it, and nothing else.
abbrev pub Closes : Bool → ℤ → Process → Type 0
Closes opened fd (blocked events) = opened ≡ true
Closes opened fd (exited events fds code) = fds ≡ (if opened then fd ∷ [] else [])

module _ (libc : Libc) (k : Calls) (opts : Options) where
  report-Closes :
      (opened : Bool) (run : Run)
      → Released opened k.socket run
      → Closes opened k.socket (report libc k run)
  unfolding report
  report-Closes opened (waits events) h = h
  report-Closes opened (ends events fds success) h = h
  report-Closes opened (ends events fds (failure t)) h = h

  choose-Closes :
      (b opened opened' : Bool) (p p' : Process)
      → Closes (opened && is_nonneg k.socket) k.socket p
      → Closes (opened' && is_nonneg k.socket) k.socket p'
      → Closes
          ((if b then opened else opened') && is_nonneg k.socket)
          k.socket
          (if b then p else p')
  choose-Closes true opened opened' p p' h h' = h
  choose-Closes false opened opened' p p' h h' = h'

  run_mode-Closes :
      Closes (asks_mode libc opts && is_nonneg k.socket) k.socket (run_mode libc k opts)
  unfolding run_mode
  run_mode-Closes =
      choose-Closes (bytes_eq opts.mode (codes "server")) _ _ _ _
        (report-Closes _ _ (run_server-Released libc k opts))
        (choose-Closes (bytes_eq opts.mode (codes "client")) _ _ _ _
          (report-Closes _ _ (run_client-Released libc k opts)) refl)

-- Whatever the arguments are and the kernel answers, the helper leaks no descriptor: a process that
-- exits has closed the socket that it opened, once, and nothing else, and one that waits has it
-- open. It opens one exactly if the arguments and their addresses can be read and the kernel has one.
pub main-Closes :
    (libc : Libc) (k : Calls) (args : List Bytes)
    → Closes (asks libc args && is_nonneg k.socket) k.socket (main libc k args)
unfolding main
main-Closes libc k args = elim (Option-cases (parse_options args)) [
  | inl bad ↦ ground arith
  | inr (opts, good) ↦ ground (arith, run_mode-Closes libc k opts)
]
