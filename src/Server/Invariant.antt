-- ===== src/Server/Invariant.antt =====
-- The invariant of a session, and the steps of one feature in it.
use mathlib.Core.Path.{subst}
use sctp_conformance.Base.{
  Bool-cases, ◌≡◌, ◌≢◌, inl, inr, refl, sym, ap, ◌∙◌, arith, List, [], ◌∷◌, Option, none, some,
  Bytes, bytes_eq, All,
}
use sctp_conformance.Feature.{FeatureDefinition}
use sctp_conformance.Session.{FeatureExecution, Slot}
use sctp_conformance.Session.Invariant.{IsConsistent, IsJustified, IsStep, Moves}
use sctp_conformance.Server.State.{
  Features, Session, Scope, slot_of, store_slot, find, assign, on_feature,
}
use sctp_conformance.Server.Tables.{
  find-assign, Has, Distinct, Distinct-assign, All-find, All-assign,
}

-- An entry of `features`, in a session with this active feature.
pub record EntryOk (active_id : Bytes) (entry : Bytes × FeatureExecution) : Type 0 where
  pub under_id : entry.1.definition.id ≡ entry.0
  pub consistent : IsConsistent active_id entry.1
  pub justified : IsJustified entry.1

pub record SessionOk (catalog : List FeatureDefinition) (session : Session) : Type 0 where
  pub entries : All (EntryOk session.active_feature_id) session.features
  pub distinct : Distinct session.features
  pub complete : All (λ d. Has d.id session.features) catalog

-- The other entries do not care that one feature is named or unnamed.
other-EntryOk :
    (id before after : Bytes) (k : Bytes) (e : FeatureExecution)
    → Moves id before after
    → k ≢ id
    → id ≢ []
    → EntryOk before (k, e)
    → EntryOk after (k, e)
other-EntryOk id before after k e m ne has h = record {
  under_id = h.under_id;
  consistent = record {
    named = λ a. ground (arith, h.under_id, h.consistent.named, h.consistent.has_id);
    live = λ a. ground (arith, h.under_id, h.consistent.live, h.consistent.has_id);
    idle = h.consistent.idle;
    has_id = h.consistent.has_id;
  };
  justified = h.justified;
}

pub Has-assign :
    (id j : Bytes) (e : FeatureExecution) (features : Features)
    → Has j features
    → Has j (assign id e features)
Has-assign id j e features (v, h) = elim (Bool-cases (bytes_eq id j)) [
  | inl hit ↦ (e, find-assign id j e features ∙ rw hit)
  | inr miss ↦ (v, find-assign id j e features ∙ rw miss h)
]

-- Every feature of a list has its execution.
abbrev pub AllHave : List FeatureDefinition → Features → Type 0
AllHave catalog features = All (λ d. Has d.id features) catalog

All-Has-assign :
    (id : Bytes) (e : FeatureExecution) (features : Features) (catalog : List FeatureDefinition)
    → AllHave catalog features
    → AllHave catalog (assign id e features)
All-Has-assign id e features [] h = tt
All-Has-assign id e features (d ∷ rest) h =
    (Has-assign id d.id e features h.0, All-Has-assign id e features rest h.1)

-- The call does not crash, and its result is as stated.
abbrev pub Lands {ℓ} : {A : Type ℓ} → (A → Type 0) → Option A → Type 0
Lands P none = ⊥
Lands P (some a) = P a

pub Lands-intro {ℓ} :
    {A : Type ℓ} (P : A → Type 0) {o : Option A} {a : A} → o ≡ some a → P a → Lands P o
Lands-intro P e p = subst (Lands P) (sym e) p

pub Lands-elim {ℓ} :
    {A : Type ℓ} (P : A → Type 0) (o : Option A) → Lands P o → (a : A) × (o ≡ some a) × P a
Lands-elim P none h = absurd h
Lands-elim P (some a) h = (a, refl, h)

module _ (catalog : List FeatureDefinition) where
  store_slot-SessionOk :
      (id : Bytes) (c : Scope) (e : FeatureExecution) (t : Slot)
      → SessionOk catalog (c.session)
      → find id (c.session.features) ≡ some e
      → IsStep (slot_of c e) t
      → SessionOk catalog (store_slot id t c).session
  store_slot-SessionOk id c e t ok found step =
      let entry : EntryOk (c.session.active_feature_id) (id, e) =
        All-find (EntryOk (c.session.active_feature_id)) id e (c.session.features) ok.entries
          found in
      let has : id ≢ [] = ground (arith, entry.under_id, entry.consistent.has_id) in
      let moves : Moves id (c.session.active_feature_id) t.active_feature_id =
        subst (λ i. Moves i (c.session.active_feature_id) t.active_feature_id) entry.under_id
          step.moves in
      record {
        entries =
            All-assign (EntryOk (c.session.active_feature_id)) (EntryOk t.active_feature_id) id
              t.execution (c.session.features) (λ k v ne h. other-EntryOk id _ _ k v moves ne has h)
              (record {
                under_id = ap (λ d. d.id) step.same_definition ∙ entry.under_id;
                consistent = step.consistent entry.consistent;
                justified = step.justified entry.justified;
              })
              ok.distinct ok.entries;
        distinct = Distinct-assign id t.execution (c.session.features) ok.distinct;
        complete = All-Has-assign id t.execution (c.session.features) catalog ok.complete;
      }

  -- What a call on a session leaves: the invariant, and no execution lost.
  pub record Kept (features : Features) (c : Scope) : Type 0 where
    pub ok : SessionOk catalog c.session
    pub have : (j : Bytes) → Has j features → Has j (c.session.features)

  pub Kept-AllHave :
      (rest : List FeatureDefinition) (features : Features) (c : Scope)
      → Kept features c
      → AllHave rest features
      → AllHave rest (c.session.features)
  Kept-AllHave [] features c k h = tt
  Kept-AllHave (d ∷ rest) features c k h = (k.have d.id h.0, Kept-AllHave rest features c k h.1)

  pub on_feature-Kept {ℓ} :
      {R : Type ℓ} (id : Bytes) (f : Slot → Slot × R) (c : Scope)
      → SessionOk catalog (c.session)
      → Has id (c.session.features)
      → ((s : Slot) → IsConsistent s.active_feature_id s.execution → IsStep s (f s).0)
      → Lands (λ r. Kept (c.session.features) r.0) (on_feature id f c)
  unfolding on_feature
  on_feature-Kept id f c ok (e, found) step =
      let entry =
        All-find (EntryOk (c.session.active_feature_id)) id e (c.session.features) ok.entries
          found in
      let r = f (slot_of c e) in
      Lands-intro (λ p. Kept (c.session.features) p.0) {a = (store_slot id r.0 c, r.1)}
        (rw (found, on_feature))
        (record {
          ok = store_slot-SessionOk id c e _ ok found (step (slot_of c e) entry.consistent);
          have = λ j h. Has-assign id j _ (c.session.features) h;
        })
