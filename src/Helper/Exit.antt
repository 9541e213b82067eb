-- ===== src/Helper/Exit.antt =====
-- What `run_client` and the loop of `run_server` of adapters/freebsd_c/helper.c return.
use sctp_conformance.Base.{
  ℕ, Bool, true, false, not, ◌&&◌, List, [], ◌∷◌, Option, none, some, ◌≡◌, refl, ◌∙◌, arith, leb,
  if◌then◌else◌, Bytes, codes, Option-cases, Bool-cases, length, take, inl, inr,
}
use sctp_conformance.Base.Int.{is_nonneg}
use sctp_conformance.Helper.{
  MessageSpec, Options, SockaddrIn, Sockaddr, Event, addrs, sent, Libc, Calls, success, failure,
  Run, waits, ends, emit, strlcpy, connected, connect_error,
}
use sctp_conformance.Helper.Parse.{parse_addr_list}
use sctp_conformance.Helper.Endpoints.{
  apply_common_socket_options, expects, expects_only, emit_loaded, load_addrs, with_addrs,
}
use sctp_conformance.Helper.Client.{
  failed_call, send_loop, client_messages, send_messages, on_association, connect_client,
  run_client,
}
use sctp_conformance.Helper.Released.{connected-cases}

-- The run ends with 0.
abbrev pub succeeds : Run → Bool
succeeds (waits events) = false
succeeds (ends events fds success) = true
succeeds (ends events fds (failure text)) = false

-- One of the calls failed.
abbrev pub any_error : List (Option ℕ) → Bool
any_error [] = false
any_error (none ∷ results) = any_error results
any_error (some errno ∷ results) = true

-- The sends end as `expect_failure` asks.
abbrev pub sends_as_expected : Options → ℕ → List (Option ℕ) → Bool
sends_as_expected opts count results =
    if expects opts (codes "send")
    then any_error (take count results)
    else leb count (length results) && not (any_error (take count results))

succeeds-emit : (e : Event) (run : Run) → succeeds (emit e run) ≡ succeeds run
succeeds-emit e (waits events) = refl
succeeds-emit e (ends events fds success) = refl
succeeds-emit e (ends events fds (failure text)) = refl

module _ (libc : Libc) (k : Calls) (opts : Options) where
  succeeds-emit_loaded :
      (asked : Bool) (event : Bytes) (list : List Sockaddr) (run : Run)
      → succeeds (emit_loaded libc asked event list run) ≡ succeeds run
  unfolding emit_loaded
  succeeds-emit_loaded false event list run = refl
  succeeds-emit_loaded true event list run = elim (Option-cases (load_addrs libc list)) [
    | inl lost ↦ rw lost refl
    | inr (texts, there) ↦ rw there (succeeds-emit (addrs event texts) run)
  ]

  succeeds-failed_call :
      (stage : Bytes) (errno : ℕ)
      → succeeds (failed_call libc k opts stage errno) ≡ expects opts stage
  unfolding failed_call
  succeeds-failed_call stage errno = elim (Bool-cases (expects opts stage)) [
    | inl same ↦ rw same refl
    | inr other ↦ rw other refl
  ]

  succeeds-send_loop :
      (count : ℕ) (ms : List MessageSpec) (results : List (Option ℕ))
      → succeeds (send_loop libc k opts count ms results)
        ≡ sends_as_expected opts (length ms) results
  unfolding send_loop
  succeeds-send_loop count [] results = ground arith
  succeeds-send_loop count (m ∷ ms) [] = ground arith
  succeeds-send_loop count (m ∷ ms) (some e ∷ results) =
      ground (arith, succeeds-failed_call (codes "send") e)
  succeeds-send_loop count (m ∷ ms) (none ∷ results) =
      succeeds-emit (sent m.payload m.stream m.ppid) (send_loop libc k opts count ms results)
      ∙ succeeds-send_loop count ms results
      ∙ ground arith

  -- On an association.
  abbrev pub messages_as_expected : Bool
  messages_as_expected = elim (client_messages libc k opts) [
    | none ↦ false
    | some ms ↦ sends_as_expected opts (length ms) k.sendv
  ]

  -- Behind the addresses.
  abbrev pub connects_as_expected : List SockaddrIn → Bool
  connects_as_expected list = elim (k.connectx list) [
    | connect_error errno ↦ expects opts (codes "connect")
    | connected assoc_id ↦ not (expects_only opts (codes "connect")) && messages_as_expected
  ]

  -- The whole run.
  abbrev pub client_as_expected : Bool
  client_as_expected = elim opts.connect_addrs [
    | none ↦ false
    | some raw ↦ elim (parse_addr_list libc (strlcpy 256 raw)) [
      | none ↦ false
      | some list ↦
          is_nonneg k.socket && apply_common_socket_options k opts && connects_as_expected list
    ]
  ]

  succeeds-send_messages : succeeds (send_messages libc k opts) ≡ messages_as_expected
  unfolding send_messages
  succeeds-send_messages = elim (Option-cases (client_messages libc k opts)) [
    | inl bad ↦ ground arith
    | inr (ms, good) ↦ ground (arith, succeeds-send_loop (length ms) ms k.sendv)
  ]

  succeeds-on_association :
      (assoc_id : ℕ)
      → succeeds (on_association libc k opts assoc_id)
        ≡ (not (expects_only opts (codes "connect")) && messages_as_expected)
  unfolding on_association
  succeeds-on_association assoc_id = elim (Bool-cases (expects_only opts (codes "connect"))) [
    | inl only ↦ rw only refl
    | inr other ↦ rw other (
        succeeds-emit_loaded opts.emit_local_addrs (codes "local_addrs") (k.getladdrs assoc_id) _
        ∙ succeeds-emit_loaded opts.emit_peer_addrs (codes "peer_addrs") (k.getpaddrs assoc_id) _
        ∙ succeeds-send_messages)
  ]

  succeeds-connect_client :
      (list : List SockaddrIn)
      → succeeds (connect_client libc k opts list)
        ≡ (is_nonneg k.socket && apply_common_socket_options k opts && connects_as_expected list)
  unfolding connect_client
  succeeds-connect_client list = elim (connected-cases (k.connectx list)) [
    | inl (assoc_id, there) ↦ ground (arith, succeeds-on_association assoc_id)
    | inr (errno, lost) ↦ ground (arith, succeeds-failed_call (codes "connect") errno)
  ]

  pub run_client-as_expected : succeeds (run_client libc k opts) ≡ client_as_expected
  unfolding run_client with_addrs
  run_client-as_expected = elim (Option-cases opts.connect_addrs) [
    | inl missing ↦ ground arith
    | inr (raw, given) ↦ elim (Option-cases (parse_addr_list libc (strlcpy 256 raw))) [
      | inl bad ↦ ground arith
      | inr (list, good) ↦ ground (arith, succeeds-connect_client list)
    ]
  ]
