-- ===== src/Api/Schedules.antt =====
-- Two concurrent calls of `StartFeature` of server/freebsd_ref/main.cpp, with their locked blocks in
-- any order.
use sctp_conformance.Base.{
  ℕ, suc, ◌+◌, ◌≤◌, ◌≡◌, ◌≢◌, ◌⊎◌, inl, inr, refl, arith, List, [], ◌∷◌, Bytes,
}
use sctp_conformance.Feature.{pending, active}
use sctp_conformance.Session.{FeatureExecution, activate_execution, set_active_feature}
use sctp_conformance.Api.Races.{
  Progress, checking_session, checking_state, activating, naming, answered_200, answered_409,
  start_step, Duel, Side, left_call, right_call, duel_step, duel, IsFresh,
}

-- The blocks that a call still has, at most.
abbrev pub remaining : Progress → ℕ
remaining checking_session = 4
remaining checking_state = 3
remaining activating = 2
remaining naming = 1
remaining answered_200 = 0
remaining answered_409 = 0

-- How often a schedule lets each call move.
abbrev pub left_moves : List Side → ℕ
left_moves [] = 0
left_moves (left_call ∷ sides) = suc (left_moves sides)
left_moves (right_call ∷ sides) = left_moves sides

abbrev pub right_moves : List Side → ℕ
right_moves [] = 0
right_moves (left_call ∷ sides) = right_moves sides
right_moves (right_call ∷ sides) = suc (right_moves sides)

-- What a call has done to its feature: nothing in front of the block that activates it.
abbrev Stands : FeatureExecution → FeatureExecution → Progress → Type 0
Stands was e naming = (e.state ≡ active) × (e.definition ≡ was.definition)
Stands was e answered_200 = (e.state ≡ active) × (e.definition ≡ was.definition)
Stands was e _ = e ≡ was

-- The session names a feature exactly if its call has answered 200.
abbrev Holder : Bytes → Bytes → Bytes → Progress → Progress → Type 0
Holder name left right p q =
    ((name ≡ []) × (p ≢ answered_200) × (q ≢ answered_200))
    ⊎ ((name ≡ left) × (p ≡ answered_200))
    ⊎ ((name ≡ right) × (q ≡ answered_200))

abbrev IsSound : Duel → Duel → Type 0
IsSound was d =
    Stands was.left d.left d.left_at
    × Stands was.right d.right d.right_at
    × Holder d.active_feature_id was.left.definition.id was.right.definition.id d.left_at d.right_at
    × (d.left_at ≡ answered_409 → d.right_at ≡ answered_200)
    × (d.right_at ≡ answered_409 → d.left_at ≡ answered_200)

step_left :
    (now : ℕ) (was : Duel) (name : Bytes) (l r : FeatureExecution) (p q : Progress)
    → was.left.state ≡ pending
    → was.left.definition.id ≢ []
    → was.right.definition.id ≢ []
    → IsSound was
        (record { active_feature_id = name; left = l; right = r; left_at = p; right_at = q })
    → IsSound was (
        duel_step now left_call
          (record { active_feature_id = name; left = l; right = r; left_at = p; right_at = q }))
unfolding duel_step start_step activate_execution set_active_feature
step_left now was name l r checking_session q w i j h = ground arith
step_left now was name l r checking_state q w i j h = ground arith
step_left now was name l r activating q w i j h = ground arith
step_left now was name l r naming q w i j h = ground arith
step_left now was name l r answered_200 q w i j h = h
step_left now was name l r answered_409 q w i j h = h

step_right :
    (now : ℕ) (was : Duel) (name : Bytes) (l r : FeatureExecution) (p q : Progress)
    → was.right.state ≡ pending
    → was.left.definition.id ≢ []
    → was.right.definition.id ≢ []
    → IsSound was
        (record { active_feature_id = name; left = l; right = r; left_at = p; right_at = q })
    → IsSound was (
        duel_step now right_call
          (record { active_feature_id = name; left = l; right = r; left_at = p; right_at = q }))
unfolding duel_step start_step activate_execution set_active_feature
step_right now was name l r p checking_session w i j h = ground arith
step_right now was name l r p checking_state w i j h = ground arith
step_right now was name l r p activating w i j h = ground arith
step_right now was name l r p naming w i j h = ground arith
step_right now was name l r p answered_200 w i j h = h
step_right now was name l r p answered_409 w i j h = h

duel-IsSound :
    (now : ℕ) (was : Duel) (sides : List Side) (d : Duel)
    → was.left.state ≡ pending
    → was.right.state ≡ pending
    → was.left.definition.id ≢ []
    → was.right.definition.id ≢ []
    → IsSound was d
    → IsSound was (duel now sides d)
unfolding duel
duel-IsSound now was [] d w v i j h = h
duel-IsSound now was (left_call ∷ sides) d w v i j h =
    duel-IsSound now was sides (duel_step now left_call d) w v i j
      (step_left now was d.active_feature_id d.left d.right d.left_at d.right_at w i j h)
duel-IsSound now was (right_call ∷ sides) d w v i j h =
    duel-IsSound now was sides (duel_step now right_call d) w v i j
      (step_right now was d.active_feature_id d.left d.right d.left_at d.right_at v i j h)

-- A move takes a block off, or the call has answered.
abbrev Nears : ℕ → Progress → Progress → Type 0
Nears moves p q = (remaining q ≡ 0) ⊎ (remaining q + moves ≤ remaining p)

move-Nears :
    (now : ℕ) (name : Bytes) (e : FeatureExecution) (p : Progress)
    → Nears 1 p
        (start_step now p (record { active_feature_id = name; execution = e; closed = [] })).1
unfolding start_step
move-Nears now name e checking_session = ground arith
move-Nears now name e checking_state = ground arith
move-Nears now name e activating = ground arith
move-Nears now name e naming = ground arith
move-Nears now name e answered_200 = inl refl
move-Nears now name e answered_409 = inl refl

Nears-suc : (n : ℕ) (p q r : Progress) → Nears 1 p q → Nears n q r → Nears (suc n) p r
Nears-suc n p q r h g = ground arith

duel-Nears :
    (now : ℕ) (sides : List Side) (d : Duel)
    → Nears (left_moves sides) d.left_at (duel now sides d).left_at
      × Nears (right_moves sides) d.right_at (duel now sides d).right_at
unfolding duel duel_step
duel-Nears now [] d = (inr (omega arith), inr (omega arith))
duel-Nears now (left_call ∷ sides) d =
    let e = duel_step now left_call d in
    let (h, g) = duel-Nears now sides e in
    (
      Nears-suc (left_moves sides) d.left_at e.left_at (duel now sides e).left_at
          (move-Nears now d.active_feature_id d.left d.left_at) h,
      g,
    )
duel-Nears now (right_call ∷ sides) d =
    let e = duel_step now right_call d in
    let (h, g) = duel-Nears now sides e in
    (
      h,
      Nears-suc (right_moves sides) d.right_at e.right_at (duel now sides e).right_at
          (move-Nears now d.active_feature_id d.right d.right_at) g,
    )

-- What a call that has answered leaves behind: with 200 its feature runs, with 409 it is as it was
-- and the other call answers 200.
abbrev pub Settles : FeatureExecution → FeatureExecution → Progress → Progress → Type 0
Settles was e at other =
    ((at ≡ answered_200) × (e.state ≡ active) × (e.definition ≡ was.definition))
    ⊎ ((at ≡ answered_409) × (e ≡ was) × (other ≡ answered_200))

settled :
    (was e : FeatureExecution) (at other : Progress)
    → remaining at ≡ 0
    → Stands was e at
    → (at ≡ answered_409 → other ≡ answered_200)
    → Settles was e at other
settled was e checking_session other z s h = absurd (omega (arith, z))
settled was e checking_state other z s h = absurd (omega (arith, z))
settled was e activating other z s h = absurd (omega (arith, z))
settled was e naming other z s h = absurd (omega (arith, z))
settled was e answered_200 other z s h = inl (refl, s.0, s.1)
settled was e answered_409 other z s h = inr (refl, s, h refl)

fresh-IsSound : (d : Duel) → IsFresh d → IsSound d d
fresh-IsSound d f = ground arith

-- Two calls have just been made on two pending features, both with an id, of a session with no
-- active one, and a schedule lets each move at least four times. Whatever their order is, both calls
-- answer: 200 with the feature running, or 409 with the feature unchanged and 200 for the other; and
-- the session names a feature whose call answered 200.
pub some_start_wins :
    (now : ℕ) (sides : List Side) (d : Duel)
    → IsFresh d
    → d.left.definition.id ≢ []
    → d.right.definition.id ≢ []
    → 4 ≤ left_moves sides
    → 4 ≤ right_moves sides
    → let e = duel now sides d in
      Settles d.left e.left e.left_at e.right_at
      × Settles d.right e.right e.right_at e.left_at
      × (((e.active_feature_id ≡ d.left.definition.id) × (e.left_at ≡ answered_200))
          ⊎ ((e.active_feature_id ≡ d.right.definition.id) × (e.right_at ≡ answered_200)))
some_start_wins now sides d f i j m n =
    let e = duel now sides d in
    let (l, r, holder, lost_left, lost_right) =
      duel-IsSound now d sides d f.1 f.2 i j (fresh-IsSound d f) in
    let (near_left, near_right) = duel-Nears now sides d in
    let done_left : remaining e.left_at ≡ 0 = ground (arith, f) in
    let done_right : remaining e.right_at ≡ 0 = ground (arith, f) in
    let x = settled d.left e.left e.left_at e.right_at done_left l lost_left in
    let y = settled d.right e.right e.right_at e.left_at done_right r lost_right in
    (x, y, ground (arith, x, y, holder))
