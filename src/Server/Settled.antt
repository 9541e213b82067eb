-- ===== src/Server/Settled.antt =====
-- Executions with a verdict, under a request on their session.
use mathlib.Core.Path.{subst}
use sctp_conformance.Base.{
  ℕ, suc, ◌≡◌, refl, sym, ap, ◌∙◌, arith, true, List, [], ◌∷◌, some, Bytes, bytes_eq, bytes_eq_iff,
  Option-cases, Bool-cases, inl, inr,
}
use sctp_conformance.Feature.{FeatureDefinition}
use sctp_conformance.Session.{FeatureExecution, Slot, maybe_timeout}
use sctp_conformance.Api.Verdicts.{is_terminal, maybe_timeout-idle, verdict_stands}
use sctp_conformance.Server.State.{Features, Scope, slot_of, find, assign, find_feature, on_feature}
use sctp_conformance.Server.Tables.{find-assign}
use sctp_conformance.Server.Pages.{
  Counts, summary_loop, summary_round, summary_json, session_json, count_state, no_counts,
}
use sctp_conformance.Server.Route.{
  FeatureRoute, feature_info, feature_start, feature_complete, feature_unsupported, feature_other,
  SessionRoute, dashboard, session_info, session_summary, session_other, feature_path,
}
use sctp_conformance.Server.Requests.{Surroundings, Setting, Reply, feature_request, on_session}

-- Every execution with a verdict is in both, and the same.
abbrev pub Settled : Features → Features → Type 0
Settled before after =
    (j : Bytes) (e : FeatureExecution)
    → find j before ≡ some e
    → is_terminal e.state ≡ true
    → find j after ≡ some e

-- A call on one feature that leaves executions with a verdict alone.
pub on_feature-Settled {ℓ} :
    {R : Type ℓ} (id : Bytes) (f : Slot → Slot × R) (c d : Scope) (r : R)
    → ((s : Slot) → is_terminal (s.execution.state) ≡ true → (f s).0.execution ≡ s.execution)
    → on_feature id f c ≡ some (d, r)
    → Settled (c.session.features) (d.session.features)
unfolding on_feature
on_feature-Settled id f c d r stays h j e at_j ends =
    elim (Option-cases (find id (c.session.features))) [
      | inl missing ↦ absurd (ground (arith, missing))
      | inr (x, found) ↦
          let t : Slot = (f (slot_of c x)).0 in
          let now : d.session.features ≡ assign id t.execution (c.session.features) =
            ground (arith, found) in
          ap (find j) now
          ∙ find-assign id j t.execution (c.session.features)
          ∙ elim (Bool-cases (bytes_eq id j)) [
            | inl hit ↦
                let same : x ≡ e = ground (arith, found, bytes_eq_iff id j) in
                rw hit (ap some (stays (slot_of c x) (rw same ends) ∙ same))
            | inr miss ↦ rw miss at_j
          ]
    ]

module _ (setting : Setting) (env : Surroundings) where
  feature_request-settled :
      (r : FeatureRoute) (body : Bytes) (now : ℕ) (s : Slot)
      → is_terminal (s.execution.state) ≡ true
      → (feature_request setting env r body (maybe_timeout now s)).0.execution ≡ s.execution
  unfolding feature_request
  feature_request-settled r body now s ends =
      let (_, _, same, _, _, _) =
        verdict_stands setting.utc setting.platform setting.options now now env.kernel [] body s
          ends in
      let (_, _, _, c, u, t) =
        verdict_stands setting.utc setting.platform setting.options (env.clock 1) (env.clock 2)
          env.kernel [] body s ends in
      subst (λ (x : Slot). (feature_request setting env r body x).0.execution ≡ s.execution)
        (sym same)
        (elim r as (λ k. (feature_request setting env k body s).0.execution ≡ s.execution) [
          | feature_info ↦ refl
          | feature_start ↦ ap (λ (x : Slot). x.execution) t
          | feature_complete ↦ ap (λ (x : Slot). x.execution) c
          | feature_unsupported ↦ ap (λ (x : Slot). x.execution) u
          | feature_other ↦ refl
        ])

  summary_loop-Settled :
      (i : ℕ) (rest : List FeatureDefinition) (n m : Counts) (c d : Scope) (text : Bytes)
      → summary_loop setting.utc env.clock i rest n c ≡ some (d, (m, text))
      → Settled (c.session.features) (d.session.features)
  unfolding summary_loop summary_round
  summary_loop-Settled i [] n m c d text h j e at_j ends = ground arith
  summary_loop-Settled i (x ∷ rest) n m c d text h j e at_j ends =
      elim (Option-cases (on_feature x.id (summary_round (env.clock i)) c)) [
        | inl missing ↦ absurd (ground (arith, missing))
        | inr ((c', s), found) ↦
            elim (Option-cases
              (summary_loop setting.utc env.clock (suc i) rest (count_state s.state n) c')) [
                | inl missing ↦ absurd (ground (arith, found, missing))
                | inr ((c'', (n', later)), there) ↦
                    let same : c'' ≡ d = ground (arith, found, there) in
                    let one =
                      on_feature-Settled x.id (summary_round (env.clock i)) c c' s
                        (λ t done.
                          ap (λ (y : Slot). y.execution)
                            (maybe_timeout-idle (env.clock i) t (ground arith)))
                        found j e at_j ends in
                    subst (λ (y : Scope). find j (y.session.features) ≡ some e) same
                      (summary_loop-Settled (suc i) rest (count_state s.state n) n' c' c'' later
                        there j e one ends)
              ]
      ]

  pub on_session-Settled :
      (r : SessionRoute) (body : Bytes) (c d : Scope) (reply : Reply)
      → on_session setting env r body c ≡ some (d, reply)
      → Settled (c.session.features) (d.session.features)
  unfolding on_session summary_json
  on_session-Settled dashboard body c d reply h j e at_j ends = ground arith
  on_session-Settled session_info body c d reply h j e at_j ends =
      elim (Option-cases (session_json setting.utc setting.catalog (c.session))) [
        | inl missing ↦ absurd (ground (arith, missing))
        | inr (text, found) ↦ ground (arith, found)
      ]
  on_session-Settled session_summary body c d reply h j e at_j ends =
      elim (Option-cases (summary_loop setting.utc env.clock 0 setting.catalog no_counts c)) [
        | inl missing ↦ absurd (ground (arith, missing))
        | inr ((c', (m, text)), found) ↦
            let same : c' ≡ d = ground (arith, found) in
            subst (λ (y : Scope). find j (y.session.features) ≡ some e) same
              (summary_loop-Settled 0 setting.catalog no_counts m c c' text found j e at_j ends)
      ]
  on_session-Settled (feature_path id r) body c d reply h j e at_j ends =
      elim (Option-cases (find_feature id setting.catalog)) [
        | inl missing ↦ ground (arith, missing)
        | inr (x, found) ↦
            let run : Slot → Slot × Reply =
              λ s. feature_request setting env r body (maybe_timeout (env.clock 0) s) in
            on_feature-Settled x.id run c d reply (feature_request-settled r body (env.clock 0))
              (ground (arith, found)) j e at_j ends
      ]
  on_session-Settled session_other body c d reply h j e at_j ends = ground arith
