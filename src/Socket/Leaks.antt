-- ===== src/Socket/Leaks.antt =====
-- What `create_listening_socket` leaves behind.
use sctp_conformance.Base.{
  length-take, Bool, leb, ◌&&◌, ℕ, ◌≤◌, ◌≡◌, refl, true, List, [], ◌∷◌, arith, if◌then◌else◌,
  length, take, Bytes,
}
use sctp_conformance.Base.Int.{is_nonneg}
use sctp_conformance.Socket.{
  ServerOptions, KernelAnswers, Platform, Attempt, opened, refused, with_port, configure_socket,
  create_listening_socket, advertised,
}

-- Both address lists are long enough.
abbrev pub enough : ServerOptions → ℕ → Bool
enough options bind_count =
    leb bind_count (length options.sctp_bind_addrs) && leb bind_count (length (advertised options))

-- A socket that is handed out is the kernel's and usable, and has the number of addresses asked
-- for. A failed attempt has closed the descriptor that the kernel gave it, and nothing else; it
-- asks for one only if `asked`.
abbrev pub Keeps : Bool → ℕ → KernelAnswers → Attempt → Type 0
Keeps asked bind_count k (opened s) =
    (asked ≡ true)
    × (s.fd ≡ k.socket)
    × (is_nonneg s.fd ≡ true)
    × (length s.bind_addrs ≡ bind_count)
    × (length s.advertise_addrs ≡ bind_count)
Keeps asked bind_count k (refused e fds) =
    fds ≡ (if asked && is_nonneg k.socket then k.socket ∷ [] else [])

length-with_port : (addrs : List Bytes) (port : ℕ) → length (with_port addrs port) ≡ length addrs
unfolding with_port
length-with_port [] port = refl
length-with_port (a ∷ addrs) port = omega (arith, length-with_port addrs port)

configure_socket-Keeps :
    (platform : Platform) (options : ServerOptions) (advertise : List Bytes) (bind_count : ℕ)
    (k : KernelAnswers)
    → is_nonneg k.socket ≡ true
    → bind_count ≤ length options.sctp_bind_addrs
    → bind_count ≤ length advertise
    → Keeps true bind_count k (configure_socket platform options advertise bind_count k)
unfolding configure_socket
configure_socket-Keeps platform options advertise bind_count k live bound shown = ground (
  arith,
  length-with_port (take bind_count options.sctp_bind_addrs) k.port,
  length-with_port (take bind_count advertise) k.port,
  length-take bind_count options.sctp_bind_addrs,
  length-take bind_count advertise,
)

-- `create_listening_socket` leaks no descriptor: whatever the kernel answers, a failed attempt
-- closes exactly the one that it opened, and a successful one hands out the open one with
-- `bind_count` addresses to bind and to advertise.
pub create_listening_socket-Keeps :
    (platform : Platform) (options : ServerOptions) (bind_count : ℕ) (k : KernelAnswers)
    → Keeps
        (enough options bind_count)
        bind_count
        k
        (create_listening_socket platform options bind_count k)
unfolding create_listening_socket
create_listening_socket-Keeps platform options bind_count k =
    ground (arith, configure_socket-Keeps platform options (advertised options) bind_count k)
