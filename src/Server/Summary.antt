-- ===== src/Server/Summary.antt =====
-- What the counts of `SummaryJson` say.
use mathlib.Core.Path.{subst}
use sctp_conformance.Base.{
  ℕ, ◌+◌, ◌≡◌, ◌↔◌, inl, inr, refl, sym, ap, ◌∙◌, arith, true, List, [], ◌∷◌, none, some, Bytes,
  Option-cases, length, All, codes, Bool, false, decimal, ◌⊎◌,
}
use sctp_conformance.Feature.{FeatureDefinition, FeatureState}
use sctp_conformance.Session.{FeatureExecution}
use sctp_conformance.Api.Verdicts.{is_terminal}
use sctp_conformance.Server.State.{Features, Scope, find}
use sctp_conformance.Server.Creation.{CatalogOk}
use sctp_conformance.Server.Invariant.{AllHave, SessionOk, Lands}
use sctp_conformance.Server.Safety.{summary_json-SessionOk}
use sctp_conformance.Server.Pages.{
  Counts, count_state, no_counts, is_complete, summary_loop, summary_json, summary_text,
}
use sctp_conformance.Server.Tally.{tally, tally-cons, summary_loop-tally}
use sctp_conformance.Text.{json_quote, json_bool}
use sctp_conformance.Contract.{concat}
use sctp_conformance.Server.Framing.{flatten}
use sctp_conformance.Feature.{passed, failed, unsupported, timed_out, pending, active}

-- The feature of a session has ended.
abbrev pub Ended : Features → FeatureDefinition → Type 0
Ended features d =
    (e : FeatureExecution) × (find d.id features ≡ some e) × (is_terminal e.state ≡ true)

-- One state is another: 1, or 0.
abbrev is_in : FeatureState → FeatureState → ℕ
is_in passed passed = 1
is_in failed failed = 1
is_in unsupported unsupported = 1
is_in timed_out timed_out = 1
is_in pending pending = 1
is_in active active = 1
is_in _ _ = 0

-- How many features of the catalog are in a state.
abbrev pub count_in : FeatureState → List FeatureDefinition → Features → ℕ
count_in state [] features = 0
count_in state (d ∷ rest) features =
    elim (find d.id features) [ none ↦ 0 | some e ↦ is_in state e.state ]
    + count_in state rest features

-- The six numbers.
abbrev counts_in : List FeatureDefinition → Features → Counts → Counts
counts_in catalog features n = record {
  passed_count = n.passed_count + count_in passed catalog features;
  failed_count = n.failed_count + count_in failed catalog features;
  unsupported_count = n.unsupported_count + count_in unsupported catalog features;
  timed_out_count = n.timed_out_count + count_in timed_out catalog features;
  pending_count = n.pending_count + count_in pending catalog features;
  active_count = n.active_count + count_in active catalog features;
}

tally-counts_in :
    (catalog : List FeatureDefinition) (features : Features) (n : Counts)
    → AllHave catalog features
    → tally catalog features n ≡ counts_in catalog features n
unfolding count_state
tally-counts_in [] features n h = ground arith
tally-counts_in (d ∷ rest) features n ((e, found), h) =
    tally-cons d rest features n e found
    ∙ tally-counts_in rest features (count_state e.state n) h
    ∙ ground (arith, found)

is_complete-count_state :
    (state : FeatureState) (n : Counts)
    → (is_complete (count_state state n) ≡ true)
      ↔ ((is_complete n ≡ true) × (is_terminal state ≡ true))
unfolding is_complete count_state
is_complete-count_state state n = ground arith

is_complete-tally :
    (catalog : List FeatureDefinition) (features : Features) (n : Counts)
    → AllHave catalog features
    → (is_complete (tally catalog features n) ≡ true)
      ↔ ((is_complete n ≡ true) × All (Ended features) catalog)
is_complete-tally [] features n h = ground arith
is_complete-tally (d ∷ rest) features n ((e, found), h) =
    let (there, back) = is_complete-tally rest features (count_state e.state n) h in
    let (out, into) = is_complete-count_state e.state n in
    let same = ap is_complete (tally-cons d rest features n e found) in
    (
      λ all. let a = there (sym same ∙ all) in ((out a.0).0, ((e, found, (out a.0).1), a.1)),
      λ all.
          let (x, at_x, ends) = all.1.0 in
          let here : is_terminal e.state ≡ true = ground (arith, found, at_x) in
          same ∙ back (into (all.0, here), all.1.1),
    )

-- Every feature is in one state.
count_in-total :
    (catalog : List FeatureDefinition) (features : Features)
    → AllHave catalog features
    → count_in passed catalog features
        + count_in failed catalog features
        + count_in unsupported catalog features
        + count_in timed_out catalog features
        + count_in pending catalog features
        + count_in active catalog features
      ≡ length catalog
count_in-total [] features h = refl
count_in-total (d ∷ rest) features ((e, found), h) =
    ground (arith, found, count_in-total rest features h)

-- The documented text of a summary.
abbrev pub summary_of : Bytes → (FeatureState → ℕ) → Bytes → Bytes → Bytes
summary_of id count word features = flatten (
    codes "{\"session_id\":"
    ∷ json_quote id
    ∷ codes ",\"passed\":"
    ∷ decimal (count passed)
    ∷ codes ",\"failed\":"
    ∷ decimal (count failed)
    ∷ codes ",\"unsupported\":"
    ∷ decimal (count unsupported)
    ∷ codes ",\"timed_out\":"
    ∷ decimal (count timed_out)
    ∷ codes ",\"pending\":"
    ∷ decimal (count pending)
    ∷ codes ",\"active\":"
    ∷ decimal (count active)
    ∷ codes ",\"pending_or_active\":"
    ∷ decimal (count pending + count active)
    ∷ codes ",\"complete\":"
    ∷ word
    ∷ codes ",\"features\":["
    ∷ features
    ∷ codes "]}"
    ∷ [])

-- The word behind "complete".
abbrev pub Tells : Bytes → Type 0 → Type 0
Tells word P = ((word ≡ codes "true") × P) ⊎ ((word ≡ codes "false") × ¬ P)

-- The six numbers of a whole session.
abbrev counts_of : List FeatureDefinition → Features → Counts
counts_of catalog table = record {
  passed_count = count_in passed catalog table;
  failed_count = count_in failed catalog table;
  unsupported_count = count_in unsupported catalog table;
  timed_out_count = count_in timed_out catalog table;
  pending_count = count_in pending catalog table;
  active_count = count_in active catalog table;
}

tally-counts_of :
    (catalog : List FeatureDefinition) (table : Features)
    → AllHave catalog table
    → tally catalog table no_counts ≡ counts_of catalog table
tally-counts_of catalog table h = tally-counts_in catalog table no_counts h ∙ ground arith

summary_text-summary_of :
    (utc : ℕ → Bytes) (id features : Bytes) (catalog : List FeatureDefinition) (table : Features)
    → let n = counts_of catalog table in
      summary_text utc id n features
      ≡ summary_of id (λ state. count_in state catalog table) (json_bool (is_complete n)) features
unfolding summary_text concat
summary_text-summary_of utc id features catalog table = refl

json_bool-Tells : (b : Bool) (P : Type 0) → (b ≡ true) ↔ P → Tells (json_bool b) P
unfolding json_bool
json_bool-Tells true P h = inl (refl, h.0 refl)
json_bool-Tells false P h = inr (refl, λ p. absurd (ground (arith, h.1 p)))

module _ (utc : ℕ → Bytes) (clock : ℕ → ℕ) (catalog : List FeatureDefinition) where
  -- With a catalog whose ids are not empty and differ: `SummaryJson` on a session in order writes the
  -- documented text, in which each number is how many features of the catalog are in that state in
  -- the session that it leaves; the numbers add up to the size of the catalog; and "complete" is true
  -- if every feature has ended, false if not.
  pub summary_json_counts :
      (c d : Scope) (text : Bytes)
      → CatalogOk catalog
      → SessionOk catalog (c.session)
      → summary_json utc clock catalog c ≡ some (d, text)
      → let table = d.session.features in
        (word features : Bytes) × (text
          ≡ summary_of (d.session.id) (λ state. count_in state catalog table) word features)
        × (count_in passed catalog table
              + count_in failed catalog table
              + count_in unsupported catalog table
              + count_in timed_out catalog table
              + count_in pending catalog table
              + count_in active catalog table
            ≡ length catalog)
        × Tells word (All (Ended table) catalog)
  unfolding summary_json
  summary_json_counts c d text k ok_c e =
      elim (Option-cases (summary_loop utc clock 0 catalog no_counts c)) [
        | inl missing ↦ absurd (ground (arith, missing))
        | inr ((d', (m, features)), found) ↦
            let table = d.session.features in
            let same : d' ≡ d = ground (arith, found) in
            let written : text ≡ summary_text utc (d.session.id) m features =
              ground (arith, found) in
            let left : SessionOk catalog (d.session) =
              subst (Lands (λ r. SessionOk catalog (r.0.session))) e
                (summary_json-SessionOk catalog utc clock c ok_c) in
            let counted : m ≡ tally catalog table no_counts =
              subst (λ (y : Scope). m ≡ tally catalog (y.session.features) no_counts) same
                (summary_loop-tally utc clock 0 catalog no_counts m c d' features k found) in
            let numbers = tally-counts_of catalog table left.complete in
            let (out, into) = is_complete-tally catalog table no_counts left.complete in
            let n = counts_of catalog table in
            (
              json_bool (is_complete n),
              features,
              written
                  ∙ ap (λ (x : Counts). summary_text utc (d.session.id) x features)
                      (counted ∙ numbers)
                  ∙ summary_text-summary_of utc (d.session.id) features catalog table,
              count_in-total catalog table left.complete,
              json_bool-Tells (is_complete n) (All (Ended table) catalog) (
                λ done. (out (ap is_complete numbers ∙ done)).1,
                λ ends. sym (ap is_complete numbers) ∙ into (unfold is_complete in refl, ends),
              ),
            )
      ]
