-- ===== src/Helper/Main.antt =====
-- `main` of adapters/freebsd_c/helper.c.
use sctp_conformance.Base.{
  List, [], ◌∷◌, ◌++◌, none, some, if◌then◌else◌, Bytes, codes, bytes_eq, is_empty,
}
use sctp_conformance.Helper.{
  Options, error, Libc, Calls, success, failure, Run, waits, ends, Process, blocked, exited,
}
use sctp_conformance.Helper.Args.{parse_options}
use sctp_conformance.Helper.Server.{run_server}
use sctp_conformance.Helper.Client.{run_client}

module _ (libc : Libc) where
  -- `main` behind `run_server` or `run_client`.
  unfoldable pub report : Calls → Run → Process
  report k (waits events) = blocked events
  report k (ends events fds success) = exited events fds 0
  report k (ends events fds (failure fatal_error)) =
      exited
        (events
          ++ error (if is_empty fatal_error then libc.strerror k.last_errno else fatal_error) ∷ [])
        fds 1

  -- `main` behind `parse_options`.
  unfoldable pub run_mode : Calls → Options → Process
  unfolding bytes_eq run_server run_client report
  run_mode k opts =
      if bytes_eq opts.mode (codes "server")
      then report k (run_server libc k opts)
      else if bytes_eq opts.mode (codes "client")
      then report k (run_client libc k opts)
      else exited [] [] 2

  unfoldable pub main : Calls → List Bytes → Process
  unfolding parse_options run_mode
  main k args = elim (parse_options args) [ none ↦ exited [] [] 2 | some opts ↦ run_mode k opts ]
