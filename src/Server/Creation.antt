-- ===== src/Server/Creation.antt =====
-- The ids of a catalog, and the session that `CreateSession` makes.
use sctp_conformance.Base.{
  ◌≡◌, ◌≢◌, inl, inr, refl, sym, arith, List, [], ◌∷◌, Bytes, bytes_eq, bytes_eq_self, All,
  Bool-cases,
}
use sctp_conformance.Feature.{FeatureDefinition}
use sctp_conformance.Session.{FeatureExecution, new_execution}
use sctp_conformance.Server.State.{Features, Session, find, new_features}
use sctp_conformance.Server.Tables.{Has, Distinct, NotKey}
use sctp_conformance.Server.Invariant.{EntryOk, SessionOk, AllHave}

-- The ids of a catalog: none is empty, and none occurs twice.
abbrev pub NotId : Bytes → List FeatureDefinition → Type 0
NotId id [] = Unit
NotId id (d ∷ rest) = (d.id ≢ id) × NotId id rest

abbrev pub CatalogOk : List FeatureDefinition → Type 0
CatalogOk [] = Unit
CatalogOk (d ∷ rest) = (d.id ≢ []) × NotId d.id rest × CatalogOk rest

new_execution-EntryOk : (d : FeatureDefinition) → d.id ≢ [] → EntryOk [] (d.id, new_execution d)
unfolding new_execution
new_execution-EntryOk d h = record {
  under_id = refl;
  consistent = record {
    named = λ a. ground arith;
    live = λ a. absurd (h (sym a));
    idle = λ a. refl;
    has_id = h;
  };
  justified = record {
    observed = λ a b. ground arith;
    reported = λ a b. ground arith;
    both_observed = λ a b. ground arith;
    both_reported = λ a b. ground arith;
  };
}

new_features-EntryOk :
    (catalog : List FeatureDefinition) → CatalogOk catalog → All (EntryOk []) (new_features catalog)
unfolding new_features
new_features-EntryOk [] h = tt
new_features-EntryOk (d ∷ rest) h = (new_execution-EntryOk d h.0, new_features-EntryOk rest h.2)

NotKey-new_features :
    (id : Bytes) (catalog : List FeatureDefinition)
    → NotId id catalog
    → NotKey id (new_features catalog)
unfolding new_features
NotKey-new_features id [] h = tt
NotKey-new_features id (d ∷ rest) h = (h.0, NotKey-new_features id rest h.1)

new_features-Distinct :
    (catalog : List FeatureDefinition) → CatalogOk catalog → Distinct (new_features catalog)
unfolding new_features
new_features-Distinct [] h = tt
new_features-Distinct (d ∷ rest) h =
    (NotKey-new_features d.id rest h.1, new_features-Distinct rest h.2)

Has-cons :
    (k : Bytes) (e : FeatureExecution) (features : Features) (j : Bytes)
    → Has j features
    → Has j ((k, e) ∷ features)
unfolding find
Has-cons k e features j (v, h) = elim (Bool-cases (bytes_eq k j)) [
  | inl hit ↦ (e, rw hit)
  | inr miss ↦ (v, rw miss h)
]

AllHave-cons :
    (k : Bytes) (e : FeatureExecution) (features : Features) (catalog : List FeatureDefinition)
    → AllHave catalog features
    → AllHave catalog ((k, e) ∷ features)
AllHave-cons k e features [] h = tt
AllHave-cons k e features (d ∷ rest) h =
    (Has-cons k e features d.id h.0, AllHave-cons k e features rest h.1)

new_features-AllHave : (catalog : List FeatureDefinition) → AllHave catalog (new_features catalog)
unfolding new_features
new_features-AllHave [] = tt
new_features-AllHave (d ∷ rest) = (
  (new_execution d, unfold find in rw (bytes_eq_self d.id)),
  AllHave-cons d.id (new_execution d) (new_features rest) rest (new_features-AllHave rest),
)

pub new_session-SessionOk :
    (catalog : List FeatureDefinition) (session : Session)
    → CatalogOk catalog
    → session.features ≡ new_features catalog
    → session.active_feature_id ≡ []
    → SessionOk catalog session
new_session-SessionOk catalog session h f a = record {
  entries = rw (f, a) (new_features-EntryOk catalog h);
  distinct = rw f (new_features-Distinct catalog h);
  complete = rw f (new_features-AllHave catalog);
}
