-- ===== src/Tests/Options.antt =====
-- Arguments of the program, a list of addresses, and a text for a page.
use sctp_conformance.Base.{arith, List, [], ◌∷◌, Bytes, codes}
use sctp_conformance.Options.{default_options, parse_options}
use sctp_conformance.Options.Usable.{IsSane, Usable, parse_options-Usable}

default_options-IsSane : IsSane default_options
default_options-IsSane = record {
  port = ground arith;
  bind = ((λ e. ground arith), ((λ e. ground arith), tt));
  advertise = tt;
}

abbrev args : List Bytes
args = codes "--http-port" ∷ codes "18080" ∷ codes "--sctp-addrs" ∷ codes "10.0.0.1, 10.0.0.2" ∷ []

parse_options-Usable_example : Usable (parse_options args default_options)
parse_options-Usable_example = parse_options-Usable args default_options default_options-IsSane
