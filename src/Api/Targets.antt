-- ===== src/Api/Targets.antt =====
-- The loop of `StartFeature` over the targets, and the descriptors of its sockets.
use mathlib.Core.Path.{subst}
use sctp_conformance.Base.{
  ℕ, zero, suc, ◌+◌, ◌<◌, ◌≡◌, refl, sym, ap, ◌∙◌, arith, Bool, true, List, [], ◌∷◌, ◌++◌,
  append-nil, append_assoc, Bytes, if◌then◌else◌, ◌&&◌, ◌⊎◌, inl, inr, All, All-append,
}
use sctp_conformance.Base.Int.{ℤ, is_nonneg}
use sctp_conformance.Session.{closable}
use sctp_conformance.Socket.{
  ServerOptions, ListeningSocket, KernelAnswers, Platform, Attempt, opened, refused,
  create_listening_socket,
}
use sctp_conformance.Socket.Leaks.{enough, Keeps, create_listening_socket-Keeps}
use sctp_conformance.Api.Start.{Targets, all_open, none_open, open_targets, push_front_of}

-- What the kernel gives to `n` attempts from `i` on.
abbrev pub sockets : (ℕ → KernelAnswers) → ℕ → ℕ → List ℤ
sockets kernel i zero = []
sockets kernel i (suc n) = (kernel i).socket ∷ sockets kernel (suc i) n

-- What the attempt that fails has opened itself.
abbrev pub in_vain : Bool → KernelAnswers → List ℤ
in_vain asked k = if asked && is_nonneg k.socket then k.socket ∷ [] else []

-- Behind `n` attempts from `i` on that started with `fds` open.
abbrev pub AllOrNone : Bool → (ℕ → KernelAnswers) → ℕ → ℕ → List ℤ → Targets → Type 0
AllOrNone asked kernel i n fds (all_open all addrs) = all ≡ fds ++ sockets kernel i n
AllOrNone asked kernel i n fds (none_open e closed) =
    (k : ℕ) × (k < n) × (closed ≡ in_vain asked (kernel (i + k)) ++ (fds ++ sockets kernel i k))

-- One more attempt succeeded.
AllOrNone-suc :
    (asked : Bool) (kernel : ℕ → KernelAnswers) (i n : ℕ) (fds : List ℤ) (t : Targets)
    → AllOrNone asked kernel (suc i) n (fds ++ (kernel i).socket ∷ []) t
    → AllOrNone asked kernel i (suc n) fds t
AllOrNone-suc asked kernel i n fds (all_open all addrs) h = h ∙ append_assoc fds _ _
AllOrNone-suc asked kernel i n fds (none_open e closed) (k, lt, h) = (
  suc k,
  omega arith,
  h
      ∙ ap (λ (ys : List ℤ). in_vain asked (kernel (suc i + k)) ++ ys) (append_assoc fds _ _)
      ∙ ap (λ (m : ℕ). in_vain asked (kernel m) ++ (fds ++ sockets kernel i (suc k))) (omega arith),
)

Attempt-cases :
    (a : Attempt)
    → ((s : ListeningSocket) × (a ≡ opened s))
      ⊎ ((e : Bytes) × (fds : List ℤ) × (a ≡ refused e fds))
Attempt-cases (opened s) = inl (s, refl)
Attempt-cases (refused e fds) = inr (e, fds, refl)

-- Descriptors that are open are all closed.
closable-All : (fds : List ℤ) → All (λ fd. is_nonneg fd ≡ true) fds → closable fds ≡ fds
unfolding closable
closable-All [] h = refl
closable-All (x ∷ fds) h = ground (arith, closable-All fds h.1)

module _ (utc : ℕ → Bytes) (platform : Platform) (options : ServerOptions) (bind_count : ℕ) where
  rest_of_targets-AllOrNone :
      (n : ℕ) (kernel : ℕ → KernelAnswers) (i : ℕ) (fds : List ℤ) (addrs : List Bytes)
      → All (λ fd. is_nonneg fd ≡ true) fds
      → AllOrNone
          (enough options bind_count)
          kernel
          i
          n
          fds
          (open_targets utc platform options bind_count n kernel i fds addrs)
  unfolding open_targets
  rest_of_targets-AllOrNone zero kernel i fds addrs h = sym (append-nil fds)
  rest_of_targets-AllOrNone (suc n) kernel i fds addrs h =
      let asked = enough options bind_count in
      let kept = create_listening_socket-Keeps platform options bind_count (kernel i) in
      elim (Attempt-cases (create_listening_socket platform options bind_count (kernel i))) [
        | inl (s, e) ↦
            let good = subst (Keeps asked bind_count (kernel i)) e kept in
            let rest =
              rest_of_targets-AllOrNone n kernel (suc i) (fds ++ s.fd ∷ [])
                (push_front_of s.advertise_addrs addrs)
                (All-append (λ fd. is_nonneg fd ≡ true) fds (s.fd ∷ []) h (good.2, tt)) in
            rw (e, open_targets)
              (AllOrNone-suc asked kernel i n fds _ (
                subst
                  (λ fd. AllOrNone asked kernel (suc i) n (fds ++ fd ∷ []) (
                    open_targets utc platform options bind_count n kernel (suc i) (fds ++ s.fd ∷ [])
                      (push_front_of s.advertise_addrs addrs)))
                  good.1 rest))
        | inr (text, tried, e) ↦
            let closed = subst (Keeps asked bind_count (kernel i)) e kept in
            rw (e, open_targets)
              (
                0,
                omega arith,
                ap (λ (ys : List ℤ). ys ++ closable fds) closed
                    ∙ ap (λ (ys : List ℤ). in_vain asked (kernel i) ++ ys)
                        (closable-All fds h ∙ sym (append-nil fds))
                    ∙ ap (λ (m : ℕ). in_vain asked (kernel m) ++ (fds ++ [])) (omega arith),
              )
      ]

  -- The loop of `StartFeature` over the targets hands out the sockets of all attempts, in order. If
  -- one attempt fails, the loop has closed exactly what the kernel gave it: the sockets of the
  -- attempts before, and that of the failing one where it got that far.
  pub open_targets-AllOrNone :
      (n : ℕ) (kernel : ℕ → KernelAnswers)
      → AllOrNone
          (enough options bind_count)
          kernel
          0
          n
          []
          (open_targets utc platform options bind_count n kernel 0 [] [])
  open_targets-AllOrNone n kernel = rest_of_targets-AllOrNone n kernel 0 [] [] tt
