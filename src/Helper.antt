-- ===== src/Helper.antt =====
-- The data of adapters/freebsd_c/helper.c: its structs, the lines that it prints as events, and
-- what it asks of libc and the kernel. A C string is the list of its bytes in front of the NUL.
pub mod Lines
pub mod Parse
pub mod Args
pub mod Endpoints
pub mod Server
pub mod Client
pub mod Main
pub mod Released
pub mod Closing
pub mod Exit
pub mod Outcome
pub mod Reports
pub mod Messages
pub mod Exchange
pub mod Bounds
use sctp_conformance.Base.{ℕ, zero, ◌-◌, Bool, List, [], ◌∷◌, Option, Bytes, take}
use sctp_conformance.Base.Int.{ℤ}

abbrev pub max_addrs : ℕ
max_addrs = 8

abbrev pub max_messages : ℕ
max_messages = 16

pub record MessageSpec : Type 0 where
  pub payload : Bytes
  pub stream : ℕ
  pub ppid : ℕ

pub record SctpInitmsg : Type 0 where
  pub sinit_num_ostreams : ℕ
  pub sinit_max_instreams : ℕ
  pub sinit_max_attempts : ℕ
  pub sinit_max_init_timeo : ℕ

-- `struct options`; a null pointer is `none`.
pub record Options : Type 0 where
  pub mode : Bytes
  pub bind_addrs : Option Bytes
  pub connect_addrs : Option Bytes
  pub subscribe : Option Bytes
  pub messages : Option Bytes
  pub expect_failure : Option Bytes
  pub read_messages : ℤ
  pub set_nodelay : Bool
  pub emit_local_addrs : Bool
  pub emit_peer_addrs : Bool
  pub initmsg : SctpInitmsg

-- The address and the port of a `sockaddr_in`, in the order of the host.
pub record SockaddrIn : Type 0 where
  pub sin_addr : ℕ
  pub sin_port : ℕ

pub data Sockaddr : Type 0 where
  ipv4 : SockaddrIn → Sockaddr
  other_family : Sockaddr

-- The three flags of `sctp_event_subscribe` that the helper sets.
pub record Subscribe : Type 0 where
  pub sctp_association_event : Bool
  pub sctp_shutdown_event : Bool
  pub sctp_data_io_event : Bool

-- One call of an `emit_...` function.
pub data Event : Type 0 where
  ready : List Bytes → Event
  addrs : Bytes → List Bytes → Event
  recv : Bytes → ℕ → ℕ → ℕ → Event
  sent : Bytes → ℕ → ℕ → Event
  notify : ℕ → ℕ → Event
  expected_failure : Bytes → Bytes → Event
  complete : ℕ → Bytes → Event
  error : Bytes → Event

-- `strlcpy` into a buffer of that size.
abbrev pub strlcpy : ℕ → Bytes → Bytes
strlcpy size text = take (size - 1) text

-- The functions of libc that are not the language's.
pub record Libc : Type 0 where
  pub inet_pton : Bytes → Option ℕ
  pub inet_ntop : ℕ → Option Bytes
  pub strerror : ℕ → Bytes

-- One return of `sctp_recvv`: the type and the flags of a notification, or the payload with
-- stream, PPID and association.
pub data Received : Type 0 where
  recv_error : Received
  notification : ℕ → ℕ → Received
  message : Bytes → ℕ → ℕ → ℕ → Received

-- What `sctp_connectx` returns: the association, or `errno`.
pub data Connected : Type 0 where
  connected : ℕ → Connected
  connect_error : ℕ → Connected

-- What the calls of one process return, where `true` is a 0. `bind_port` and `local_port` are the
-- ports that the two calls of `getsockname` give. The lists are the returns of `sctp_recvv` and
-- `sctp_sendv` in order; where one runs out the process waits in the call. `garbage` is what the
-- array of addresses holds before it is written, and `last_errno` is `errno` at the end of `main`.
pub record Calls : Type 0 where
  pub socket : ℤ
  pub nodelay : Bool
  pub init : SctpInitmsg → Bool
  pub events : Subscribe → Bool
  pub recvrcvinfo : Bool
  pub bind : SockaddrIn → Bool
  pub bind_port : Option ℕ
  pub bindx : List SockaddrIn → Bool
  pub listen : Bool
  pub future_laddrs : List Sockaddr
  pub local_port : Option ℕ
  pub getladdrs : ℕ → List Sockaddr
  pub getpaddrs : ℕ → List Sockaddr
  pub connectx : List SockaddrIn → Connected
  pub recvv : List Received
  pub sendv : List (Option ℕ)
  pub garbage : SockaddrIn
  pub last_errno : ℕ

-- How `run_server` or `run_client` ends: 0, or -1 with the text of `fatal_error`.
pub data Rc : Type 0 where
  success : Rc
  failure : Bytes → Rc

-- The events of a run and, where it ends, the descriptors closed and what it returns.
pub data Run : Type 0 where
  waits : List Event → Run
  ends : List Event → List ℤ → Rc → Run

-- A run behind an event.
abbrev pub emit : Event → Run → Run
emit e (waits es) = waits (e ∷ es)
emit e (ends es fds rc) = ends (e ∷ es) fds rc

-- The process as a whole, with its exit code; `usage` exits with 2.
pub data Process : Type 0 where
  blocked : List Event → Process
  exited : List Event → List ℤ → ℕ → Process
