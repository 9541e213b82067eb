-- ===== src/Server/Tables.antt =====
-- The maps of a session under an assignment.
use mathlib.Core.Path.{subst, subst₂}
use sctp_conformance.Base.{
  Bool-cases, ◌≡◌, ◌≢◌, inl, inr, refl, sym, arith, List, [], ◌∷◌, some, if◌then◌else◌, Bytes,
  bytes_eq, bytes_eq_iff, All,
}
use sctp_conformance.Server.State.{find, assign}

module _ {ℓ} {V : Type ℓ} where
  pub find-assign :
      (key j : Bytes) (value : V) (m : List (Bytes × V))
      → find j (assign key value m) ≡ (if bytes_eq key j then some value else find j m)
  unfolding find assign
  find-assign key j value [] = refl
  find-assign key j value ((k, v) ∷ m) =
      ground
        (arith, bytes_eq_iff key j, bytes_eq_iff k key, bytes_eq_iff k j, find-assign key j value m)

  abbrev pub Has : Bytes → List (Bytes × V) → Type ℓ
  Has key m = (v : V) × (find key m ≡ some v)

  -- No key twice.
  abbrev pub NotKey : Bytes → List (Bytes × V) → Type ℓ
  NotKey key [] = Unit
  NotKey key ((k, v) ∷ m) = (k ≢ key) × NotKey key m

  abbrev pub Distinct : List (Bytes × V) → Type ℓ
  Distinct [] = Unit
  Distinct ((k, v) ∷ m) = NotKey k m × Distinct m

  NotKey-assign :
      (key j : Bytes) (value : V) (m : List (Bytes × V))
      → key ≢ j
      → NotKey j m
      → NotKey j (assign key value m)
  unfolding assign
  NotKey-assign key j value [] h n = (h, tt)
  NotKey-assign key j value ((k, v) ∷ m) h n =
      ground (arith, bytes_eq_iff k key, NotKey-assign key j value m h n.1)

  pub Distinct-assign :
      (key : Bytes) (value : V) (m : List (Bytes × V)) → Distinct m → Distinct (assign key value m)
  unfolding assign
  Distinct-assign key value [] d = (tt, tt)
  Distinct-assign key value ((k, v) ∷ m) d =
      ground
        (arith, bytes_eq_iff k key, Distinct-assign key value m d.1, NotKey-assign key k value m)

  -- What holds of every entry holds of the one that is found.
  pub All-find {κ} :
      (P : Bytes × V → Type κ) (key : Bytes) (v : V) (m : List (Bytes × V))
      → All P m
      → find key m ≡ some v
      → P (key, v)
  unfolding find
  All-find P key v [] h e = absurd (ground arith)
  All-find P key v ((k, w) ∷ m) h e = elim (Bool-cases (bytes_eq k key)) [
    | inl hit ↦ subst₂ (λ a b. P (a, b)) ((bytes_eq_iff k key).0 hit) (ground arith) h.0
    | inr miss ↦ All-find P key v m h.1 (rw miss at e)
  ]

  All-other {κ μ} :
      (P : Bytes × V → Type κ) (Q : Bytes × V → Type μ) (key : Bytes) (m : List (Bytes × V))
      → ((k : Bytes) (v : V) → k ≢ key → P (k, v) → Q (k, v))
      → NotKey key m
      → All P m
      → All Q m
  All-other P Q key [] other n h = tt
  All-other P Q key ((k, v) ∷ m) other n h = (other k v n.0 h.0, All-other P Q key m other n.1 h.1)

  -- An entry is replaced; the entries under other keys go over by `other`.
  pub All-assign {κ μ} :
      (P : Bytes × V → Type κ) (Q : Bytes × V → Type μ) (key : Bytes) (value : V)
      (m : List (Bytes × V))
      → ((k : Bytes) (v : V) → k ≢ key → P (k, v) → Q (k, v))
      → Q (key, value)
      → Distinct m
      → All P m
      → All Q (assign key value m)
  unfolding assign
  All-assign P Q key value [] other new d h = (new, tt)
  All-assign P Q key value ((k, v) ∷ m) other new d h = elim (Bool-cases (bytes_eq k key)) [
    | inl hit ↦
        let same = (bytes_eq_iff k key).0 hit in
        rw hit (
          subst (λ a. Q (a, value)) (sym same) new,
          All-other P Q key m other (subst (λ a. NotKey a m) same d.0) h.1,
        )
    | inr miss ↦ rw miss (
      other k v (λ same. ground (arith, bytes_eq_iff k key)) h.0,
      All-assign P Q key value m other new d.1 h.1,
    )
  ]

  pub All-assign_same {κ} :
      (P : Bytes × V → Type κ) (key : Bytes) (value : V) (m : List (Bytes × V))
      → ((k : Bytes) → P (k, value))
      → All P m
      → All P (assign key value m)
  unfolding assign
  All-assign_same P key value [] new h = (new key, tt)
  All-assign_same P key value ((k, v) ∷ m) new h =
      ground (arith, new k, All-assign_same P key value m new h.1)
