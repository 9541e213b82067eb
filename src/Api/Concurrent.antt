-- ===== src/Api/Concurrent.antt =====
-- Concurrent marks, reports and declarations of server/freebsd_ref/main.cpp on one execution, their
-- blocks in any order.
use sctp_conformance.Base.{
  ℕ, suc, ◌+◌, ◌≤◌, ◌≡◌, ◌≢◌, ◌⊎◌, refl, arith, true, false, List, [], ◌∷◌, ◌++◌, Bytes, length,
  bytes_eq_iff,
}
use sctp_conformance.Base.Int.{ℤ}
use sctp_conformance.Feature.{active}
use sctp_conformance.Session.{Slot, closable, clear_active_feature}
use sctp_conformance.Api.Blocks.{
  failing, observing, timing_out, reporting, declining, accept, Place, deciding, taking, closing,
  clearing, returned, decide, block,
}

-- A sum over a list.
abbrev pub total {ℓ} : {A : Type ℓ} → (A → ℕ) → List A → ℕ
total f [] = 0
total f (x ∷ xs) = f x + total f xs

pub total-append {ℓ} :
    {A : Type ℓ} (f : A → ℕ) (xs ys : List A) → total f (xs ++ ys) ≡ total f xs + total f ys
total-append f [] ys = omega arith
total-append f (x ∷ xs) ys = omega (arith, total-append f xs ys)

-- The blocks that a call still has, at most, besides one for each descriptor that it will take.
abbrev pub blocks_left : Place → ℕ
blocks_left (deciding mark now) = 4
blocks_left (taking finished) = 3
blocks_left (closing finished fds) = 2 + length fds
blocks_left clearing = 1
blocks_left returned = 0

-- The descriptors that a call has taken and not closed, each with a weight.
abbrev pub taken : (ℤ → ℕ) → Place → ℕ
taken w (closing finished fds) = total w (closable fds)
taken w _ = 0

-- The call will clear the name of the active feature, or take the descriptors.
abbrev pub owes_clear : Place → ℕ
owes_clear (taking true) = 1
owes_clear (closing true fds) = 1
owes_clear clearing = 1
owes_clear _ = 0

abbrev pub owes_take : Place → ℕ
owes_take (taking finished) = 1
owes_take _ = 0

abbrev pub weight : (ℤ → ℕ) → Slot → ℕ
weight w s = total w s.closed + total w (closable (s.execution.active_fds))

-- What a block keeps, where the other calls owe `a` and `b`.
abbrev pub Sound : Bytes → ℕ → ℕ → Slot → Place → Type 0
Sound id a b s p =
    (s.execution.definition.id ≡ id)
    × ((s.active_feature_id ≡ id) ⊎ (s.active_feature_id ≡ []))
    × ((s.execution.state ≡ active) ⊎ (s.active_feature_id ≡ []) ⊎ (1 ≤ a + owes_clear p))
    × ((s.execution.state ≡ active) ⊎ (s.execution.active_fds ≡ []) ⊎ (1 ≤ b + owes_take p))

pub block-weight :
    (w : ℤ → ℕ) (p : Place) (s : Slot)
    → weight w (block p s).0 + taken w (block p s).1 ≡ weight w s + taken w p
unfolding block decide accept closable clear_active_feature
block-weight w (deciding (failing text) now) s = ground arith
block-weight w (deciding observing now) s = ground arith
block-weight w (deciding timing_out now) s = ground arith
block-weight w (deciding (reporting root ids) now) s = ground arith
block-weight w (deciding (declining params) now) s = ground arith
block-weight w (taking f) s = omega arith
block-weight w (closing true []) s = refl
block-weight w (closing false []) s = refl
block-weight w (closing f (fd ∷ fds)) s = ground (arith, total-append w s.closed (fd ∷ []))
block-weight w clearing s = ground arith
block-weight w returned s = refl

pub block-Sound :
    (id : Bytes) (a b : ℕ) (p : Place) (s : Slot)
    → Sound id a b s p
    → Sound id a b (block p s).0 (block p s).1
unfolding block decide accept clear_active_feature
block-Sound id a b (deciding (failing text) now) s h = ground arith
block-Sound id a b (deciding observing now) s h = ground arith
block-Sound id a b (deciding timing_out now) s h = ground arith
block-Sound id a b (deciding (reporting root ids) now) s h = ground arith
block-Sound id a b (deciding (declining params) now) s h = ground arith
block-Sound id a b (taking true) s h = ground arith
block-Sound id a b (taking false) s h = ground arith
block-Sound id a b (closing true []) s h = h
block-Sound id a b (closing false []) s h = h
block-Sound id a b (closing true (fd ∷ fds)) s h = ground arith
block-Sound id a b (closing false (fd ∷ fds)) s h = ground arith
block-Sound id a b clearing s h =
    ground (arith, bytes_eq_iff s.active_feature_id (s.execution.definition.id))
block-Sound id a b returned s h = h

pub block-left :
    (p : Place) (s : Slot)
    → p ≢ returned
    → suc (blocks_left (block p s).1 + length ((block p s).0.execution.active_fds))
      ≤ blocks_left p + length (s.execution.active_fds)
unfolding block decide accept clear_active_feature
block-left (deciding (failing text) now) s h = ground arith
block-left (deciding observing now) s h = ground arith
block-left (deciding timing_out now) s h = ground arith
block-left (deciding (reporting root ids) now) s h = ground arith
block-left (deciding (declining params) now) s h = ground arith
block-left (taking f) s h = omega arith
block-left (closing true []) s h = omega arith
block-left (closing false []) s h = omega arith
block-left (closing f (fd ∷ fds)) s h = ground arith
block-left clearing s h = ground arith
block-left returned s h = absurd (h refl)
