-- ===== src/Helper/Parse.antt =====
-- The readers of adapters/freebsd_c/helper.c, `split_csv` to `apply_subscriptions`. Memory does not
-- run out: `calloc` and `realloc` return a block.
use sctp_conformance.Base.{
  ℕ, ◌-◌, ◌%◌, ◌^◌, Bool, true, false, List, [], ◌∷◌, ◌++◌, Option, none, some, ltb, leb, ◌==◌,
  if◌then◌else◌, Bytes, codes, bytes_eq, is_empty, length,
}
use sctp_conformance.Base.Int.{ℤ, pos, negsuc}
use sctp_conformance.Text.{trim_start}
use sctp_conformance.Options.{strtoul, digits_value}
use sctp_conformance.Helper.{
  MessageSpec, SockaddrIn, Subscribe, Libc, strlcpy, max_addrs, max_messages,
}

-- The calls of `strtok` with ",", of which `current` is the token so far.
unfoldable pub strtok_loop : Bytes → Bytes → List Bytes
strtok_loop [] [] = []
strtok_loop (x ∷ xs) [] = (x ∷ xs) ∷ []
strtok_loop current (c ∷ cs) =
    let at_comma = strtok_loop [] cs in
    let inside = strtok_loop (current ++ c ∷ []) cs in
    if c == b',' then (if is_empty current then at_comma else current ∷ at_comma) else inside

unfoldable pub split_csv : Bytes → List Bytes
unfolding strtok_loop
split_csv raw = strtok_loop [] raw

-- `strchr`: what is in front of the first such byte and behind it.
unfoldable pub strchr : ℕ → Bytes → Option (Bytes × Bytes)
strchr c [] = none
strchr c (x ∷ xs) =
    let rest = strchr c xs in
    if x == c then some ([], xs) else elim rest [ none ↦ none | some p ↦ some (x ∷ p.0, p.1) ]

-- `strrchr`: the same for the last one.
unfoldable pub strrchr : ℕ → Bytes → Option (Bytes × Bytes)
strrchr c [] = none
strrchr c (x ∷ xs) = elim (strrchr c xs) [
  | some p ↦ some (x ∷ p.0, p.1)
  | none ↦ if x == c then some ([], xs) else none
]

-- A magnitude with its sign as `long` of 64 bits, at the ends of the range where it does not fit.
abbrev to_long : Bool → ℕ → ℤ
to_long true ℕ.zero = pos 0
to_long true (ℕ.suc n) = negsuc (if leb (2 ^ 63) n then 2 ^ 63 - 1 else n)
to_long false n = pos (if leb (2 ^ 63) n then 2 ^ 63 - 1 else n)

-- `strtol(text, NULL, 10)`
unfoldable pub strtol : Bytes → ℤ
unfolding digits_value trim_start
strtol text = elim (trim_start text) [
  | [] ↦ pos 0
  | c ∷ cs ↦
      if c == b'-'
      then to_long true (digits_value 0 cs)
      else if c == b'+'
      then to_long false (digits_value 0 cs)
      else to_long false (digits_value 0 (c ∷ cs))
]

-- `port < 0 || port > 65535`, or the port.
abbrev port_number : ℤ → Option ℕ
port_number (negsuc n) = none
port_number (pos n) = if ltb 65535 n then none else some n

module _ (libc : Libc) where
  unfoldable pub parse_addr : Bytes → Option SockaddrIn
  unfolding strrchr strtol
  parse_addr raw = if leb 64 (length raw) then none else elim (strrchr b':' raw) [
    | none ↦ none
    | some p ↦ elim (port_number (strtol p.1)) [
      | none ↦ none
      | some port ↦ elim (libc.inet_pton p.0) [
        | none ↦ none
        | some addr ↦ some (record { sin_addr = addr; sin_port = port })
      ]
    ]
  ]

  -- The loop of `parse_addr_list`.
  unfoldable pub parse_addrs : List Bytes → Option (List SockaddrIn)
  unfolding parse_addr
  parse_addrs [] = some []
  parse_addrs (part ∷ parts) = elim (parse_addr part) [
    | none ↦ none
    | some addr ↦ elim (parse_addrs parts) [ none ↦ none | some rest ↦ some (addr ∷ rest) ]
  ]

  unfoldable pub parse_addr_list : Bytes → Option (List SockaddrIn)
  unfolding split_csv parse_addrs
  parse_addr_list raw =
      if ltb max_addrs (length (split_csv raw)) then none else parse_addrs (split_csv raw)

-- One round of the loop of `parse_messages`.
unfoldable pub parse_message : Bytes → Option MessageSpec
unfolding strchr strtoul
parse_message spec = elim (strchr b':' spec) [
  | none ↦ none
  | some p ↦ elim (strchr b':' p.1) [
    | none ↦ none
    | some q ↦ some (record {
      payload = strlcpy 256 p.0;
      stream = strtoul q.0 % 2 ^ 16;
      ppid = strtoul q.1 % 2 ^ 32;
    })
  ]
]

unfoldable pub message_specs : List Bytes → Option (List MessageSpec)
unfolding parse_message
message_specs [] = some []
message_specs (part ∷ parts) = elim (parse_message part) [
  | none ↦ none
  | some m ↦ elim (message_specs parts) [ none ↦ none | some rest ↦ some (m ∷ rest) ]
]

unfoldable pub parse_messages : Bytes → Option (List MessageSpec)
unfolding split_csv message_specs
parse_messages raw =
    if ltb max_messages (length (split_csv raw)) then none else message_specs (split_csv raw)

-- The loop of `apply_subscriptions`.
unfoldable pub read_subscriptions : Subscribe → List Bytes → Option Subscribe
unfolding bytes_eq
read_subscriptions s [] = some s
read_subscriptions s (part ∷ parts) =
    let association = read_subscriptions (record s { sctp_association_event = true }) parts in
    let shutdown = read_subscriptions (record s { sctp_shutdown_event = true }) parts in
    let dataio = read_subscriptions (record s { sctp_data_io_event = true }) parts in
    if bytes_eq part (codes "association")
    then association
    else if bytes_eq part (codes "shutdown")
    then shutdown
    else if bytes_eq part (codes "dataio")
    then dataio
    else none
