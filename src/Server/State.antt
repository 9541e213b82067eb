-- ===== src/Server/State.antt =====
-- `Session` and the tables of `FeatureServer`.
use sctp_conformance.Base.{ℕ, List, [], ◌∷◌, Option, none, some, if◌then◌else◌, Bytes, bytes_eq}
use sctp_conformance.Base.Int.{ℤ}
use sctp_conformance.Feature.{FeatureDefinition}
use sctp_conformance.Session.{FeatureExecution, Slot, new_execution}

-- `features`, from ids to executions.
abbrev pub Features : Type 0
Features = List (Bytes × FeatureExecution)

pub record Session : Type 0 where
  pub id : Bytes
  pub agent_name : Bytes
  pub environment_name : Bytes
  pub created_at : ℕ
  pub features : Features
  pub active_feature_id : Bytes

-- The state that requests change, and the descriptors closed so far.
pub record Server : Type 0 where
  pub sessions : List (Bytes × Session)
  pub closed : List ℤ

module _ {ℓ} {V : Type ℓ} where
  -- `find` on a map.
  unfoldable pub find : Bytes → List (Bytes × V) → Option V
  unfolding bytes_eq
  find key [] = none
  find key ((k, v) ∷ rest) = if bytes_eq k key then some v else find key rest

  -- `map[key] = value`
  unfoldable pub assign : Bytes → V → List (Bytes × V) → List (Bytes × V)
  unfolding bytes_eq
  assign key value [] = (key, value) ∷ []
  assign key value ((k, v) ∷ rest) =
      if bytes_eq k key then (k, value) ∷ rest else (k, v) ∷ assign key value rest

-- `FindFeature`. The index keeps the last definition of an id; the ids of the catalog differ.
unfoldable pub find_feature : Bytes → List FeatureDefinition → Option FeatureDefinition
unfolding bytes_eq
find_feature id [] = none
find_feature id (d ∷ rest) = if bytes_eq d.id id then some d else find_feature id rest

-- The loop of `CreateSession`, which gives a session one execution for each feature.
unfoldable pub new_features : List FeatureDefinition → Features
unfolding new_execution
new_features [] = []
new_features (d ∷ rest) = (d.id, new_execution d) ∷ new_features rest

-- A session with the descriptors closed so far.
pub record Scope : Type 0 where
  pub session : Session
  pub closed : List ℤ

abbrev pub slot_of : Scope → FeatureExecution → Slot
slot_of c e = record {
  active_feature_id = c.session.active_feature_id;
  execution = e;
  closed = c.closed;
}

-- A slot written back.
abbrev pub store_slot : Bytes → Slot → Scope → Scope
store_slot id t c = record {
  session = record (c.session) {
    features = assign id t.execution (c.session.features);
    active_feature_id = t.active_feature_id;
  };
  closed = t.closed;
}

-- A function on the slot of one feature, run in its session.
unfoldable pub on_feature {ℓ} :
    {R : Type ℓ} → Bytes → (Slot → Slot × R) → Scope → Option (Scope × R)
unfolding find assign
on_feature id f c = elim (find id (c.session.features)) [
  | none ↦ none
  | some e ↦ let r = f (slot_of c e) in some (store_slot id r.0 c, r.1)
]
