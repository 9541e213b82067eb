-- ===== src/Helper/Outcome.antt =====
-- When `run_client` of adapters/freebsd_c/helper.c returns 0.
use sctp_conformance.Base.{
  ℕ, ◌≤◌, ◌≡◌, ◌≢◌, ◌⊎◌, true, false, List, [], Option, none, some, Bytes, codes, length, take,
}
use sctp_conformance.Base.Int.{is_nonneg}
use sctp_conformance.Helper.{
  MessageSpec, Options, SockaddrIn, Libc, Calls, strlcpy, connected, connect_error,
}
use sctp_conformance.Helper.Parse.{parse_addr_list, parse_messages}
use sctp_conformance.Helper.Endpoints.{apply_subscriptions}
use sctp_conformance.Helper.Exit.{any_error}

-- The value of `--expect-failure` names this stage, or both.
abbrev pub MayFail : Options → Bytes → Type 0
MayFail opts stage =
    (opts.expect_failure ≡ some stage) ⊎ (opts.expect_failure ≡ some (codes "connect_or_send"))

-- The options of the socket that were asked for are set.
abbrev pub OptionsSet : Calls → Options → Type 0
OptionsSet k opts =
    let m = opts.initmsg in
    ((opts.set_nodelay ≡ false) ⊎ (k.nodelay ≡ true))
    × (((m.sinit_num_ostreams ≡ 0)
          × (m.sinit_max_instreams ≡ 0)
          × (m.sinit_max_attempts ≡ 0)
          × (m.sinit_max_init_timeo ≡ 0))
        ⊎ (k.init m ≡ true))
    × (apply_subscriptions k opts.subscribe ≡ true)

-- The messages that the arguments name.
abbrev pub Given : Options → List MessageSpec → Type 0
Given opts ms =
    ((opts.messages ≡ none) × (ms ≡ []))
    ⊎ ((raw : Bytes) × (opts.messages ≡ some raw) × (parse_messages (strlcpy 512 raw) ≡ some ms))

-- The sends of so many messages: one fails, where that may be; or all succeed.
abbrev pub SendsEnd : Options → ℕ → List (Option ℕ) → Type 0
SendsEnd opts count results =
    (MayFail opts (codes "send") × (any_error (take count results) ≡ true))
    ⊎ ((¬ MayFail opts (codes "send"))
        × (count ≤ length results)
        × (any_error (take count results) ≡ false))

module _ (libc : Libc) (k : Calls) (opts : Options) where
  -- The connection is refused, where that may be; or it is made, that is not to fail, and the messages
  -- are sent.
  abbrev pub ConnectionEnds : List SockaddrIn → Type 0
  ConnectionEnds list =
      ((errno : ℕ) × (k.connectx list ≡ connect_error errno) × MayFail opts (codes "connect"))
      ⊎ ((assoc_id : ℕ) × (ms : List MessageSpec) × (k.connectx list ≡ connected assoc_id)
          × (opts.expect_failure ≢ some (codes "connect"))
          × Given opts ms
          × SendsEnd opts (length ms) k.sendv)

  abbrev pub ClientSucceeds : Type 0
  ClientSucceeds =
      (raw : Bytes) × (list : List SockaddrIn) × (opts.connect_addrs ≡ some raw)
      × (parse_addr_list libc (strlcpy 256 raw) ≡ some list)
      × (is_nonneg k.socket ≡ true)
      × OptionsSet k opts
      × ConnectionEnds list
