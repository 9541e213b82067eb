-- ===== src/Api/Together.antt =====
-- What concurrent marks, reports and declarations of server/freebsd_ref/main.cpp on one active
-- execution come to.
use sctp_conformance.Base.{
  ℕ, ◌+◌, ◌*◌, ◌≤◌, ◌≡◌, ◌⊎◌, inl, refl, arith, List, [], ◌∷◌, ◌++◌, Bytes, length, All, ap,
}
use sctp_conformance.Base.Int.{ℤ}
use sctp_conformance.Feature.{active}
use sctp_conformance.Session.{Slot}
use sctp_conformance.Api.Blocks.{Mark, Place, returned, block, Moves, rest, move, calls}
use sctp_conformance.Api.Concurrent.{
  total, total-append, blocks_left, taken, owes_clear, owes_take, weight, Sound, block-weight,
  block-Sound, block-left,
}

-- Nothing that was taken is lost.
Moves-weight :
    (w : ℤ → ℕ) (n : ℕ) (c d : Slot × List Place)
    → Moves n c d
    → weight w d.0 + total (taken w) d.1 ≡ weight w c.0 + total (taken w) c.1
Moves-weight w n c d rest = refl
Moves-weight w n c d (move {n = m} {s = s} before p after h k) =
    let ih = Moves-weight w m c (s, before ++ p ∷ after) h in
    let next = (block p s).1 in
    omega (
      arith,
      ih,
      block-weight w p s,
      total-append (taken w) before (p ∷ after),
      total-append (taken w) before (next ∷ after),
    )

-- The calls that have not returned see to the rest.
abbrev Whole : Bytes → Slot × List Place → Type 0
Whole id c = Sound id (total owes_clear c.1) (total owes_take c.1) c.0 returned

Sound-mono :
    (id : Bytes) (a b a' b' : ℕ) (s : Slot) (p q : Place)
    → Sound id a b s p
    → a + owes_clear p ≤ a' + owes_clear q
    → b + owes_take p ≤ b' + owes_take q
    → Sound id a' b' s q
Sound-mono id a b a' b' s p q h m n = ground arith

Moves-Whole : (id : Bytes) (n : ℕ) (c d : Slot × List Place) → Moves n c d → Whole id c → Whole id d
Moves-Whole id n c d rest g = g
Moves-Whole id n c d (move {n = m} {s = s} before p after h k) g =
    let next = (block p s).1 in
    let t = (block p s).0 in
    let a = total owes_clear before + total owes_clear after in
    let b = total owes_take before + total owes_take after in
    let at_p =
      Sound-mono id (total owes_clear (before ++ p ∷ after)) (total owes_take (before ++ p ∷ after))
        a b s returned p (Moves-Whole id m c (s, before ++ p ∷ after) h g)
        (omega (arith, total-append owes_clear before (p ∷ after)))
        (omega (arith, total-append owes_take before (p ∷ after))) in
    Sound-mono id a b (total owes_clear (before ++ next ∷ after))
      (total owes_take (before ++ next ∷ after)) t next returned (block-Sound id a b p s at_p)
      (omega (arith, total-append owes_clear before (next ∷ after)))
      (omega (arith, total-append owes_take before (next ∷ after)))

-- Each move takes one off.
Moves-left :
    (n : ℕ) (c d : Slot × List Place)
    → Moves n c d
    → n + (total blocks_left d.1 + length (d.0.execution.active_fds))
      ≤ total blocks_left c.1 + length (c.0.execution.active_fds)
Moves-left n c d rest = omega arith
Moves-left n c d (move {n = m} {s = s} before p after h k) =
    let ih = Moves-left m c (s, before ++ p ∷ after) h in
    let next = (block p s).1 in
    omega (
      arith,
      ih,
      block-left p s k,
      total-append blocks_left before (p ∷ after),
      total-append blocks_left before (next ∷ after),
    )

left-calls : (marks : List (Mark × ℕ)) → total blocks_left (calls marks) ≡ 4 * length marks
left-calls [] = refl
left-calls (m ∷ marks) = omega (arith, left-calls marks)

none_taken : (w : ℤ → ℕ) (marks : List (Mark × ℕ)) → total (taken w) (calls marks) ≡ 0
none_taken w [] = refl
none_taken w (m ∷ marks) = omega (arith, none_taken w marks)

-- Calls that have returned have nothing left.
total-returned :
    (f : Place → ℕ) (places : List Place)
    → f returned ≡ 0
    → All (λ p. p ≡ returned) places
    → total f places ≡ 0
total-returned f [] z h = refl
total-returned f (p ∷ places) z h = omega (arith, ap f h.0, z, total-returned f places z h.1)

-- Calls of marks, deadline checks, reports and declarations run on an execution that is active and
-- that its session names, with their blocks in any order. There are at most four moves for each call
-- and one for each descriptor. Once all calls have returned, each descriptor that the execution held
-- is still held or has been closed, once, and nothing else has: any weights of the descriptors add up
-- to the same. And either the execution is still active, or it holds no descriptor and the session
-- names no active feature.
pub marks_close_once :
    (n : ℕ) (marks : List (Mark × ℕ)) (s : Slot) (d : Slot × List Place)
    → s.execution.state ≡ active
    → s.active_feature_id ≡ s.execution.definition.id
    → Moves n (s, calls marks) d
    → All (λ p. p ≡ returned) d.1
    → (n ≤ 4 * length marks + length (s.execution.active_fds))
      × ((w : ℤ → ℕ) → weight w d.0 ≡ weight w s)
      × ((d.0.execution.state ≡ active)
          ⊎ ((d.0.execution.active_fds ≡ []) × (d.0.active_feature_id ≡ [])))
marks_close_once n marks s d on named h all =
    let id = s.execution.definition.id in
    let (same, name, clears, takes) =
      Moves-Whole id n (s, calls marks) d h (refl, inl named, inl on, inl on) in
    (
      omega (arith, Moves-left n (s, calls marks) d h, left-calls marks),
      λ w. omega (
        arith,
        Moves-weight w n (s, calls marks) d h,
        none_taken w marks,
        total-returned (taken w) d.1 refl all,
      ),
      ground (
        arith,
        clears,
        takes,
        total-returned owes_clear d.1 refl all,
        total-returned owes_take d.1 refl all,
      ),
    )
