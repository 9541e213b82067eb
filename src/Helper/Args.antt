-- ===== src/Helper/Args.antt =====
-- `parse_options` of adapters/freebsd_c/helper.c, on the arguments behind the program's name.
use sctp_conformance.Base.{
  ℕ, ◌-◌, ◌%◌, ◌^◌, Bool, true, false, ◌||◌, List, [], ◌∷◌, Option, none, some, ltb, if◌then◌else◌,
  Bytes, codes, bytes_eq,
}
use sctp_conformance.Base.Int.{ℤ, pos, negsuc}
use sctp_conformance.Helper.{Options}
use sctp_conformance.Helper.Parse.{strtol}

-- An integer modulo 2 ^ w.
abbrev pub wrap : ℕ → ℤ → ℕ
wrap w (pos n) = n % 2 ^ w
wrap w (negsuc n) = 2 ^ w - 1 - n % 2 ^ w

-- A residue modulo 2 ^ 32 as `int`.
abbrev pub to_int : ℕ → ℤ
to_int u = if ltb u (2 ^ 31) then pos u else negsuc (2 ^ 32 - 1 - u)

-- `atoi`, the cast of what `strtol` returns.
unfoldable pub atoi : Bytes → ℤ
unfolding strtol
atoi text = to_int (wrap 32 (strtol text))

-- The options behind the `memset`.
abbrev pub no_options : Bytes → Options
no_options mode = record {
  mode = mode;
  bind_addrs = none;
  connect_addrs = none;
  subscribe = none;
  messages = none;
  expect_failure = none;
  read_messages = pos 0;
  set_nodelay = false;
  emit_local_addrs = false;
  emit_peer_addrs = false;
  initmsg = record {
    sinit_num_ostreams = 0;
    sinit_max_instreams = 0;
    sinit_max_attempts = 0;
    sinit_max_init_timeo = 0;
  };
}

-- The options that ask for one more argument.
unfoldable pub has_value : Bytes → Bool
unfolding bytes_eq
has_value arg =
    bytes_eq arg (codes "--bind-addrs")
    || bytes_eq arg (codes "--connect-addrs")
    || bytes_eq arg (codes "--subscribe")
    || bytes_eq arg (codes "--messages")
    || bytes_eq arg (codes "--expect-failure")
    || bytes_eq arg (codes "--read-messages")
    || bytes_eq arg (codes "--init-ostreams")
    || bytes_eq arg (codes "--init-instreams")
    || bytes_eq arg (codes "--init-attempts")
    || bytes_eq arg (codes "--init-timeout")

-- What they store.
unfoldable pub store_value : Bytes → Bytes → Options → Options
unfolding bytes_eq atoi
store_value arg value o =
    let number = wrap 16 (atoi value) in
    if bytes_eq arg (codes "--bind-addrs")
    then record o { bind_addrs = some value }
    else if bytes_eq arg (codes "--connect-addrs")
    then record o { connect_addrs = some value }
    else if bytes_eq arg (codes "--subscribe")
    then record o { subscribe = some value }
    else if bytes_eq arg (codes "--messages")
    then record o { messages = some value }
    else if bytes_eq arg (codes "--expect-failure")
    then record o { expect_failure = some value }
    else if bytes_eq arg (codes "--read-messages")
    then record o { read_messages = atoi value }
    else if bytes_eq arg (codes "--init-ostreams")
    then record o { initmsg = record (o.initmsg) { sinit_num_ostreams = number } }
    else if bytes_eq arg (codes "--init-instreams")
    then record o { initmsg = record (o.initmsg) { sinit_max_instreams = number } }
    else if bytes_eq arg (codes "--init-attempts")
    then record o { initmsg = record (o.initmsg) { sinit_max_attempts = number } }
    else record o { initmsg = record (o.initmsg) { sinit_max_init_timeo = number } }

-- The options that stand alone, and the last branch.
unfoldable pub store_flag : Bytes → Options → Option Options
unfolding bytes_eq
store_flag arg o =
    if bytes_eq arg (codes "--set-nodelay")
    then some (record o { set_nodelay = true })
    else if bytes_eq arg (codes "--emit-local-addrs")
    then some (record o { emit_local_addrs = true })
    else if bytes_eq arg (codes "--emit-peer-addrs")
    then some (record o { emit_peer_addrs = true })
    else none

unfoldable pub options_loop : List Bytes → Options → Option Options
unfolding has_value store_value store_flag
options_loop [] o = some o
options_loop (arg ∷ []) o = store_flag arg o
options_loop (arg ∷ value ∷ rest) o = elim (has_value arg) [
  | true ↦ options_loop rest (store_value arg value o)
  | false ↦ elim (store_flag arg o) [
    | none ↦ none
    | some flagged ↦ options_loop (value ∷ rest) flagged
  ]
]

unfoldable pub parse_options : List Bytes → Option Options
unfolding options_loop
parse_options [] = none
parse_options (mode ∷ args) = options_loop args (no_options mode)
