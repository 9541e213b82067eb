-- ===== src/Server/Tally.antt =====
-- The loop of `SummaryJson` against the states that it leaves.
use mathlib.Core.Path.{subst}
use sctp_conformance.Base.{
  ℕ, suc, ◌≡◌, ◌≢◌, inl, inr, refl, sym, ap, ◌∙◌, arith, List, [], ◌∷◌, none, some, Bytes,
  bytes_eq_iff, Option-cases,
}
use sctp_conformance.Feature.{FeatureDefinition}
use sctp_conformance.Session.{FeatureExecution}
use sctp_conformance.Server.State.{Features, Scope, find, on_feature}
use sctp_conformance.Server.Tables.{find-assign}
use sctp_conformance.Server.Creation.{NotId, CatalogOk}
use sctp_conformance.Server.Pages.{Counts, count_state, summary_round, summary_loop}

-- The states that a session's features have, counted.
abbrev pub tally : List FeatureDefinition → Features → Counts → Counts
tally [] features n = n
tally (d ∷ rest) features n = elim (find d.id features) [
  | none ↦ n
  | some e ↦ tally rest features (count_state e.state n)
]

pub tally-cons :
    (d : FeatureDefinition) (rest : List FeatureDefinition) (features : Features) (n : Counts)
    (e : FeatureExecution)
    → find d.id features ≡ some e
    → tally (d ∷ rest) features n ≡ tally rest features (count_state e.state n)
tally-cons d rest features n e found = rw (found, tally) refl

-- A call on one feature leaves its own execution as it answers, and no other changed.
on_feature-find :
    (id : Bytes) (now : ℕ) (c d : Scope) (e : FeatureExecution)
    → on_feature id (summary_round now) c ≡ some (d, e)
    → (find id (d.session.features) ≡ some e)
      × ((j : Bytes) → id ≢ j → find j (d.session.features) ≡ find j (c.session.features))
unfolding on_feature summary_round
on_feature-find id now c d e h = elim (Option-cases (find id (c.session.features))) [
  | inl missing ↦ absurd (ground (arith, missing))
  | inr (x, found) ↦ (
    ground (arith, found, find-assign id id e (c.session.features), bytes_eq_iff id id),
    λ j ne. ground (arith, found, find-assign id j e (c.session.features), bytes_eq_iff id j),
  )
]

module _ (utc : ℕ → Bytes) where
  -- The rounds for other features keep the execution under an id.
  summary_loop-other :
      (clock : ℕ → ℕ) (i : ℕ) (catalog : List FeatureDefinition) (n m : Counts) (c d : Scope)
      (text : Bytes) (j : Bytes)
      → NotId j catalog
      → summary_loop utc clock i catalog n c ≡ some (d, (m, text))
      → find j (d.session.features) ≡ find j (c.session.features)
  unfolding summary_loop
  summary_loop-other clock i [] n m c d text j h e = ground arith
  summary_loop-other clock i (x ∷ rest) n m c d text j h e =
      elim (Option-cases (on_feature x.id (summary_round (clock i)) c)) [
        | inl missing ↦ absurd (ground (arith, missing))
        | inr ((c', s), found) ↦
            elim (Option-cases (summary_loop utc clock (suc i) rest (count_state s.state n) c')) [
              | inl missing ↦ absurd (ground (arith, found, missing))
              | inr ((c'', (n', later)), there) ↦
                  let same : c'' ≡ d = ground (arith, found, there) in
                  ap (λ (y : Scope). find j (y.session.features)) (sym same)
                  ∙ summary_loop-other clock (suc i) rest (count_state s.state n) n' c' c'' later j
                      h.1 there
                  ∙ (on_feature-find x.id (clock i) c c' s found).1 j h.0
            ]
      ]

  pub summary_loop-tally :
      (clock : ℕ → ℕ) (i : ℕ) (catalog : List FeatureDefinition) (n m : Counts) (c d : Scope)
      (text : Bytes)
      → CatalogOk catalog
      → summary_loop utc clock i catalog n c ≡ some (d, (m, text))
      → m ≡ tally catalog (d.session.features) n
  unfolding summary_loop
  summary_loop-tally clock i [] n m c d text k e = ground arith
  summary_loop-tally clock i (x ∷ rest) n m c d text k e =
      elim (Option-cases (on_feature x.id (summary_round (clock i)) c)) [
        | inl missing ↦ absurd (ground (arith, missing))
        | inr ((c', s), found) ↦
            elim (Option-cases (summary_loop utc clock (suc i) rest (count_state s.state n) c')) [
              | inl missing ↦ absurd (ground (arith, found, missing))
              | inr ((c'', (n', later)), there) ↦
                  let same : c'' ≡ d = ground (arith, found, there) in
                  let own : find x.id (c''.session.features) ≡ some s =
                    summary_loop-other clock (suc i) rest (count_state s.state n) n' c' c'' later
                      x.id k.1 there
                    ∙ (on_feature-find x.id (clock i) c c' s found).0 in
                  let rec' =
                    summary_loop-tally clock (suc i) rest (count_state s.state n) n' c' c'' later
                      k.2 there in
                  let counted : n' ≡ m = ground (arith, found, there) in
                  subst (λ (y : Scope). m ≡ tally (x ∷ rest) (y.session.features) n) same
                    (sym counted ∙ rec' ∙ sym (tally-cons x rest (c''.session.features) n s own))
            ]
      ]
