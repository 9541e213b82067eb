-- ===== src/Socket.antt =====
-- `ServerOptions`, `ListeningSocket` and `create_listening_socket` of server/freebsd_ref/main.cpp,
-- with `missing_bind_message` and `with_port`. What the kernel answers to the system calls of one
-- attempt is a record; `strerror` and the numbers of the errors are the platform's.
pub mod Leaks
use sctp_conformance.Base.{
  ℕ, suc, Bool, not, ◌∷◌, [], ◌++◌, List, Option, none, some, ltb, ◌==◌, if◌then◌else◌, Bytes,
  codes, bytes_eq, is_empty, decimal, length, take,
}
use sctp_conformance.Base.Int.{ℤ, is_nonneg}

pub record ServerOptions : Type 0 where
  pub http_host : Bytes
  pub http_port : ℕ
  pub sctp_bind_addrs : List Bytes
  pub sctp_advertise_addrs : List Bytes

pub record ListeningSocket : Type 0 where
  pub fd : ℤ
  pub bind_addrs : List Bytes
  pub advertise_addrs : List Bytes

-- The answers of the kernel. A call that sets something answers with no value, or with `errno`.
pub record KernelAnswers : Type 0 where
  pub socket : ℤ
  pub socket_errno : ℕ
  pub set_initmsg : Option ℕ
  pub set_events : Option ℕ
  pub set_recvrcvinfo : Option ℕ
  pub set_timeout : Option ℕ
  pub is_ipv4 : Bytes → Bool
  pub bind : Option ℕ
  pub first_getsockname : Option ℕ
  pub bindx : Option ℕ
  pub listen : Option ℕ
  pub getsockname : Option ℕ
  pub port : ℕ

pub record Platform : Type 0 where
  pub strerror : ℕ → Bytes
  pub eaddrnotavail : ℕ
  pub ewouldblock : ℕ
  pub eagain : ℕ

-- The socket or `error`, and the descriptors closed on the way.
pub data Attempt : Type 0 where
  opened : ListeningSocket → Attempt
  refused : Bytes → List ℤ → Attempt

unfoldable pub with_port : List Bytes → ℕ → List Bytes
unfolding decimal
with_port [] port = []
with_port (addr ∷ addrs) port = (addr ++ (codes ":" ++ decimal port)) ∷ with_port addrs port

unfoldable pub missing_bind_message : Bytes → Bytes
unfolding bytes_eq
missing_bind_message address =
    if bytes_eq address (codes "127.0.0.2")
    then codes
        "address 127.0.0.2 is not configured on the FreeBSD host; run `ifconfig lo0 alias 127.0.0.2/8` as root"
    else codes "address "
      ++ (address
          ++ codes
              " is not configured on the FreeBSD host; add it to a local interface or change --sctp-addrs")

-- The first address that `inet_pton` refuses.
unfoldable pub invalid_address : (Bytes → Bool) → List Bytes → Option Bytes
invalid_address is_ipv4 [] = none
invalid_address is_ipv4 (addr ∷ addrs) =
    if is_ipv4 addr then invalid_address is_ipv4 addrs else some addr

-- `addrs[i]`; the callers have checked the size.
abbrev pub nth : List Bytes → ℕ → Bytes
nth [] i = []
nth (a ∷ as') ℕ.zero = a
nth (a ∷ as') (suc i) = nth as' i

-- A call on the open descriptor: `errno` closes it.
abbrev or_close : ℤ → (ℕ → Bytes) → Option ℕ → Attempt → Attempt
or_close fd message none go_on = go_on
or_close fd message (some e) go_on = refused (message e) (fd ∷ [])

-- The local `advertise` of `create_listening_socket`.
abbrev pub advertised : ServerOptions → List Bytes
advertised options =
    if is_empty options.sctp_advertise_addrs
    then options.sctp_bind_addrs
    else options.sctp_advertise_addrs

module _ (platform : Platform) where
  open platform use {strerror, eaddrnotavail}

  -- The error text of `bind` and `sctp_bindx`.
  unfoldable pub bind_error : Bytes → ℕ → Bytes
  unfolding missing_bind_message
  bind_error address bind_errno =
      if bind_errno == eaddrnotavail then missing_bind_message address else strerror bind_errno

  -- From `apply_server_initmsg` to the end, on a descriptor that is open. With a count of 0, which no
  -- feature of the catalog has, the program would bind entry 0 of an empty vector; here it binds.
  unfoldable pub configure_socket : ServerOptions → List Bytes → ℕ → KernelAnswers → Attempt
  unfolding bind_error invalid_address with_port
  configure_socket options advertise bind_count k =
      let fd = k.socket in
      let addrs = options.sctp_bind_addrs in
      let listening = opened (record {
        fd = fd;
        bind_addrs = with_port (take bind_count addrs) k.port;
        advertise_addrs = with_port (take bind_count advertise) k.port;
      }) in
      let name = or_close fd strerror k.listen (or_close fd strerror k.getsockname listening) in
      let extra =
        or_close fd strerror k.first_getsockname
          (or_close fd (bind_error (nth addrs 1)) k.bindx name) in
      let bound =
        or_close fd (bind_error (nth addrs 0)) k.bind (if ltb 1 bind_count then extra else name) in
      let checked : Attempt = elim (invalid_address k.is_ipv4 (take bind_count addrs)) [
        | none ↦ bound
        | some address ↦ refused (codes "invalid IPv4 bind address " ++ address) (fd ∷ [])
      ] in
      or_close fd strerror k.set_initmsg (
        or_close fd strerror k.set_events
          (or_close fd strerror k.set_recvrcvinfo (or_close fd strerror k.set_timeout checked)))

  unfoldable pub create_listening_socket : ServerOptions → ℕ → KernelAnswers → Attempt
  create_listening_socket options bind_count k =
      let advertise =
        if is_empty options.sctp_advertise_addrs
        then options.sctp_bind_addrs
        else options.sctp_advertise_addrs in
      if ltb (length options.sctp_bind_addrs) bind_count
      then refused
          (codes "feature requires "
            ++ (decimal bind_count
                ++ codes
                    " SCTP addresses; restart the server with --sctp-addrs containing enough local addresses"))
          []
      else if ltb (length advertise) bind_count
      then refused
          (codes "feature requires "
            ++ (decimal bind_count
                ++ codes
                    " advertised SCTP addresses; restart the server with --advertise-addrs containing enough addresses"))
          []
      else if not (is_nonneg k.socket)
      then refused (strerror k.socket_errno) []
      else configure_socket options advertise bind_count k
