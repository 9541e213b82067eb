-- ===== src/Options/Usable.antt =====
-- What the options are that `parse_options` accepts.
use sctp_conformance.Base.{
  ℕ, ◌<◌, ◌≡◌, ◌≢◌, arith, inl, inr, true, List, [], ◌∷◌, Bytes, codes, bytes_eq, is_empty, All,
  Bool-cases,
}
use sctp_conformance.Text.{nonempty_trimmed, split, get_lines, trim}
use sctp_conformance.Socket.{ServerOptions}
use sctp_conformance.Socket.Leaks.{enough}
use sctp_conformance.Options.{
  ParsedOptions, options_ok, options_error, usage_exit, takes_value, set_option, plain_option,
  finish_options, parse_options,
}

-- The port fits its type, and no address is empty.
pub record IsSane (o : ServerOptions) : Type 0 where
  pub port : o.http_port < 65536
  pub bind : All (λ a. a ≢ []) o.sctp_bind_addrs
  pub advertise : All (λ a. a ≢ []) o.sctp_advertise_addrs

nonempty_trimmed-All : (pieces : List Bytes) → All (λ a. a ≢ []) (nonempty_trimmed pieces)
unfolding nonempty_trimmed
nonempty_trimmed-All [] = tt
nonempty_trimmed-All (p ∷ ps) = elim (Bool-cases (is_empty (trim p))) [
  | inl empty ↦ rw empty (nonempty_trimmed-All ps)
  | inr some_text ↦ rw some_text (ground arith, nonempty_trimmed-All ps)
]

split-All : (value : Bytes) (delimiter : ℕ) → All (λ a. a ≢ []) (split value delimiter)
unfolding split
split-All value delimiter = nonempty_trimmed-All (get_lines delimiter [] value)

set_option-IsSane :
    (arg value : Bytes) (o : ServerOptions) → IsSane o → IsSane (set_option arg value o)
unfolding set_option
set_option-IsSane arg value o h = elim (Bool-cases (bytes_eq arg (codes "--http-host"))) [
  | inl a ↦ rw a (record { port = h.port; bind = h.bind; advertise = h.advertise })
  | inr a ↦ elim (Bool-cases (bytes_eq arg (codes "--http-port"))) [
    | inl b ↦ rw (a, b) (record { port = omega arith; bind = h.bind; advertise = h.advertise })
    | inr b ↦ elim (Bool-cases (bytes_eq arg (codes "--sctp-addrs"))) [
      | inl c ↦
          rw (a, b, c)
            (record { port = h.port; bind = split-All value b','; advertise = h.advertise })
      | inr c ↦
          rw (a, b, c) (record { port = h.port; bind = h.bind; advertise = split-All value b',' })
    ]
  ]
]

-- What the server may rely on.
abbrev pub Usable : ParsedOptions → Type 0
Usable (options_ok o) =
    IsSane o × (o.sctp_bind_addrs ≢ []) × (o.sctp_advertise_addrs ≢ []) × (enough o 1 ≡ true)
Usable (options_error e) = e ≢ []
Usable usage_exit = Unit

finish_options-Usable : (o : ServerOptions) → IsSane o → Usable (finish_options o)
unfolding finish_options
finish_options-Usable o h = elim (Bool-cases (is_empty o.sctp_bind_addrs)) [
  | inl a ↦ rw a (ground arith)
  | inr a ↦ elim (Bool-cases (is_empty o.sctp_advertise_addrs)) [
    | inl b ↦
        rw (a, b)
          (
            record { port = h.port; bind = h.bind; advertise = h.bind },
            ground arith,
            ground arith,
            ground arith,
          )
    | inr b ↦ rw (a, b) (h, ground arith, ground arith, ground arith)
  ]
]

plain_option-Usable : (arg : Bytes) → Usable (plain_option arg)
unfolding plain_option
plain_option-Usable arg = elim (Bool-cases (bytes_eq arg (codes "--help"))) [
  | inl a ↦ rw a tt
  | inr a ↦ elim (Bool-cases (bytes_eq arg (codes "-h"))) [
    | inl b ↦ rw (a, b) tt
    | inr b ↦ rw (a, b) (λ e. ground arith)
  ]
]

-- From options that are in order, `parse_options` makes options that are, whatever the arguments:
-- the port fits its type, no address is empty, and there is one to bind and one to advertise, so
-- that no feature with one address is refused for want of it; or it gives an error that says
-- something, or the usage text.
pub parse_options-Usable :
    (args : List Bytes) (o : ServerOptions) → IsSane o → Usable (parse_options args o)
unfolding parse_options
parse_options-Usable [] o h = finish_options-Usable o h
parse_options-Usable (arg ∷ []) o h = elim (Bool-cases (takes_value arg)) [
  | inl a ↦ rw a (λ e. ground arith)
  | inr a ↦ rw a (plain_option-Usable arg)
]
parse_options-Usable (arg ∷ value ∷ rest) o h = elim (Bool-cases (takes_value arg)) [
  | inl a ↦
      rw a (parse_options-Usable rest (set_option arg value o) (set_option-IsSane arg value o h))
  | inr a ↦ rw a (plain_option-Usable arg)
]
