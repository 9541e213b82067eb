-- ===== src/Worker/Peers.antt =====
-- `load_peer_addrs` and `format_sockaddr` of server/freebsd_ref/main.cpp.
use sctp_conformance.Base.{
  ℕ, List, [], ◌∷◌, ◌++◌, Option, none, some, if◌then◌else◌, Bytes, codes, is_empty, decimal,
}

-- An address that `sctp_getpaddrs` gives: its IPv4 address and port, or another family.
pub data PeerAddr : Type 0 where
  peer_ipv4 : ℕ → ℕ → PeerAddr
  peer_other : PeerAddr

module _ (inet_ntop : ℕ → Option Bytes) where
  unfoldable pub format_sockaddr : PeerAddr → Bytes
  unfolding decimal
  format_sockaddr peer_other = []
  format_sockaddr (peer_ipv4 addr port) = elim (inet_ntop addr) [
    | none ↦ []
    | some host ↦ host ++ (codes ":" ++ decimal port)
  ]

  -- On what `sctp_getpaddrs` gives, which is nothing where it fails.
  unfoldable pub load_peer_addrs : List PeerAddr → List Bytes
  unfolding format_sockaddr
  load_peer_addrs [] = []
  load_peer_addrs (current ∷ addrs) =
      let rendered = format_sockaddr current in
      let out = load_peer_addrs addrs in if is_empty rendered then out else rendered ∷ out
