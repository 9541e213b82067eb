-- ===== src/Server/Startup.antt =====
-- `Run`, `CheckSctpAvailable` and `CreateHttpSocket` of server/freebsd_ref/main.cpp, over what their
-- system calls return. A thread that serves a client closes its socket at the end.
use sctp_conformance.Base.{
  Bool, true, false, not, ◌&&◌, ◌≡◌, refl, arith, Bool-cases, inl, inr, List, [], ◌∷◌, ◌++◌,
  append-nil, Option, none, some, if◌then◌else◌, Bytes, codes,
}
use sctp_conformance.Base.Int.{ℤ, negsuc, is_nonneg}

-- One result of `getaddrinfo`, and what `socket`, `bind` and `listen` return for it.
pub record Candidate : Type 0 where
  pub socket : ℤ
  pub bound : Bool
  pub listens : Bool

-- One return of `accept`.
pub data Accepted : Type 0 where
  accepted : ℤ → Accepted
  accept_interrupted : Accepted
  accept_error : Accepted

-- The text of the error, and the descriptors closed.
unfoldable pub check_sctp_available : ℤ → Option Bytes × List ℤ
check_sctp_available fd = if is_nonneg fd then (none, fd ∷ []) else (
  some (
      codes
        "SCTP is unavailable on this FreeBSD host. Run `kldload /boot/kernel/sctp.ko` as root and restart the server."),
  [],
)

-- The loop of `CreateHttpSocket`: the socket that listens, or -1, and the descriptors closed.
unfoldable pub try_candidates : List Candidate → ℤ × List ℤ
try_candidates [] = (negsuc 0, [])
try_candidates (it ∷ rest) =
    let later = try_candidates rest in
    if not (is_nonneg it.socket)
    then later
    else if it.bound && it.listens
    then (it.socket, [])
    else (later.0, it.socket ∷ later.1)

-- `getaddrinfo` answers with nothing where it fails.
unfoldable pub create_http_socket : Option (List Candidate) → ℤ × List ℤ
unfolding try_candidates
create_http_socket none = (negsuc 0, [])
create_http_socket (some result) = try_candidates result

-- The loop of `Run`: the clients that get a thread, and whether the loop has ended.
unfoldable pub accept_loop : List Accepted → List ℤ × Bool
accept_loop [] = ([], false)
accept_loop (accepted client_fd ∷ rest) =
    let later = accept_loop rest in (client_fd ∷ later.0, later.1)
accept_loop (accept_interrupted ∷ rest) = accept_loop rest
accept_loop (accept_error ∷ rest) = ([], true)

-- The clients that got a thread, the descriptors that `Run` itself has closed, and whether it has
-- returned, which is always with 1.
pub record Running : Type 0 where
  pub clients : List ℤ
  pub closed : List ℤ
  pub returned : Bool

unfoldable pub run : ℤ → Option (List Candidate) → List Accepted → Running
unfolding check_sctp_available create_http_socket accept_loop
run probe result returns =
    let (missing, probed) = check_sctp_available probe in
    let (listen_fd, tried) = create_http_socket result in
    let (clients, ended) = accept_loop returns in
    elim missing [
      | some text ↦ record { clients = []; closed = probed; returned = true }
      | none ↦
          if not (is_nonneg listen_fd)
          then record { clients = []; closed = probed ++ tried; returned = true }
          else record {
            clients = clients;
            closed = probed ++ (tried ++ (if ended then listen_fd ∷ [] else []));
            returned = ended;
          }
    ]

-- The descriptors that the loop over the candidates opens.
abbrev pub opened_by : List Candidate → List ℤ
opened_by [] = []
opened_by (it ∷ rest) =
    if not (is_nonneg it.socket)
    then opened_by rest
    else if it.bound && it.listens
    then it.socket ∷ []
    else it.socket ∷ opened_by rest

-- What the loop closes and the socket that it hands out are all that it opened.
pub try_candidates-opened_by :
    (result : List Candidate)
    → (try_candidates result).1
        ++ (if is_nonneg (try_candidates result).0 then (try_candidates result).0 ∷ [] else [])
      ≡ opened_by result
unfolding try_candidates
try_candidates-opened_by [] = refl
try_candidates-opened_by (it ∷ rest) = ground (arith, try_candidates-opened_by rest)

-- The descriptors that `Run` opens, but for those of its clients.
abbrev pub run_opened : ℤ → Option (List Candidate) → List ℤ
run_opened probe none = if is_nonneg probe then probe ∷ [] else []
run_opened probe (some result) = if is_nonneg probe then probe ∷ opened_by result else []

-- Whatever the system calls answer: once `Run` has returned, it has closed every descriptor that it
-- opened, once and in order, but for those of the clients, which their threads close.
pub run-Closes :
    (probe : ℤ) (result : Option (List Candidate)) (returns : List Accepted)
    → (run probe result returns).returned ≡ true
    → (run probe result returns).closed ≡ run_opened probe result
unfolding run check_sctp_available create_http_socket
run-Closes probe none returns h = ground arith
run-Closes probe (some result) returns h = elim (Bool-cases (is_nonneg probe)) [
  | inr none_there ↦ ground arith
  | inl there ↦ elim (Bool-cases (is_nonneg (try_candidates result).0)) [
    | inl listens ↦ ground (arith, try_candidates-opened_by result)
    | inr fails ↦
        ground (arith, try_candidates-opened_by result, append-nil (try_candidates result).1)
  ]
]
