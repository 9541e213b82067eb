-- ===== src/Options.antt =====
-- `parse_options` of server/freebsd_ref/main.cpp, on the arguments behind the program's name.
pub mod Usable
pub mod Digits
use sctp_conformance.Base.{
  ℕ, zero, suc, ◌+◌, ◌*◌, ◌-◌, ◌%◌, ◌^◌, Bool, true, false, ◌&&◌, ◌||◌, List, [], ◌∷◌, ◌++◌, leb,
  ltb, ◌==◌, if◌then◌else◌, Bytes, codes, bytes_eq, is_empty,
}
use sctp_conformance.Text.{is_space, split, trim_start}
use sctp_conformance.Socket.{ServerOptions}

-- The defaults of `ServerOptions`.
abbrev pub default_options : ServerOptions
default_options = record {
  http_host = codes "0.0.0.0";
  http_port = 8080;
  sctp_bind_addrs = codes "127.0.0.1" ∷ codes "127.0.0.2" ∷ [];
  sctp_advertise_addrs = [];
}

-- The options, `error` with `false`, or the exit behind the usage text.
pub data ParsedOptions : Type 0 where
  options_ok : ServerOptions → ParsedOptions
  options_error : Bytes → ParsedOptions
  usage_exit : ParsedOptions

-- The digits in front, in base 10.
unfoldable pub digits_value : ℕ → Bytes → ℕ
digits_value value [] = value
digits_value value (c ∷ cs) =
    let rest = digits_value (value * 10 + (c - b'0')) cs in
    if leb b'0' c && leb c b'9' then rest else value

-- A magnitude as `unsigned long` of 64 bits; `strtoul` negates in that type, and stays at the
-- greatest value where the digits do not fit.
abbrev to_ulong : Bool → ℕ → ℕ
to_ulong negative value =
    if leb (2 ^ 64) value then 2 ^ 64 - 1 else if negative then (2 ^ 64 - value) % 2 ^ 64 else value

-- `std::strtoul(text, nullptr, 10)`
unfoldable pub strtoul : Bytes → ℕ
unfolding digits_value trim_start
strtoul text = elim (trim_start text) [
  | [] ↦ 0
  | c ∷ cs ↦
      if c == b'-'
      then to_ulong true (digits_value 0 cs)
      else if c == b'+'
      then to_ulong false (digits_value 0 cs)
      else to_ulong false (digits_value 0 (c ∷ cs))
]

-- The options that take a value.
unfoldable pub takes_value : Bytes → Bool
unfolding bytes_eq
takes_value arg =
    bytes_eq arg (codes "--http-host")
    || bytes_eq arg (codes "--http-port")
    || bytes_eq arg (codes "--sctp-addrs")
    || bytes_eq arg (codes "--advertise-addrs")

-- The four branches that store a value; the port is cut to `uint16_t`.
unfoldable pub set_option : Bytes → Bytes → ServerOptions → ServerOptions
unfolding bytes_eq split strtoul
set_option arg value o =
    if bytes_eq arg (codes "--http-host")
    then record o { http_host = value }
    else if bytes_eq arg (codes "--http-port")
    then record o { http_port = strtoul value % 2 ^ 16 }
    else if bytes_eq arg (codes "--sctp-addrs")
    then record o { sctp_bind_addrs = split value b',' }
    else record o { sctp_advertise_addrs = split value b',' }

-- The last two branches.
unfoldable pub plain_option : Bytes → ParsedOptions
unfolding bytes_eq
plain_option arg =
    if bytes_eq arg (codes "--help") || bytes_eq arg (codes "-h")
    then usage_exit
    else options_error (codes "unknown option " ++ arg)

-- Behind the loop.
unfoldable pub finish_options : ServerOptions → ParsedOptions
finish_options o =
    if is_empty o.sctp_bind_addrs
    then options_error (codes "--sctp-addrs must contain at least one IPv4 address")
    else options_ok (
        if is_empty o.sctp_advertise_addrs
        then record o { sctp_advertise_addrs = o.sctp_bind_addrs }
        else o)

unfoldable pub parse_options : List Bytes → ServerOptions → ParsedOptions
unfolding takes_value set_option plain_option finish_options
parse_options [] o = finish_options o
parse_options (arg ∷ []) o =
    if takes_value arg then options_error (codes "missing value for " ++ arg) else plain_option arg
parse_options (arg ∷ value ∷ rest) o =
    let later = parse_options rest (set_option arg value o) in
    if takes_value arg then later else plain_option arg
