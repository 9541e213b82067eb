-- ===== src/Catalog/Runnable.antt =====
-- What the handlers and the workers rely on in a feature of the catalog.
use sctp_conformance.Base.{
  ◌≤◌, ◌≡◌, ◌≢◌, refl, ap, arith, Bool, true, false, not, ◌&&◌, List, [], ◌∷◌, Option, none, some,
  bytes_eq, is_empty, length, leb, ltb, ◌==◌, All,
}
use sctp_conformance.Feature.{
  FeatureDefinition, OneToManyContract, MessageSpec, agent_reported, ScenarioKind, agent_only,
  receive_messages, receive_messages_multi_target, receive_pr_messages, send_after_trigger,
}
use sctp_conformance.Payload.{materialize_payload}
use sctp_conformance.Payload.Fill.{length-materialize_payload}
use sctp_conformance.Worker.{last_of}
use sctp_conformance.Api.Report.{requires_ids}
use sctp_conformance.Api.Start.{target_count}
use sctp_conformance.Catalog.{build_feature_catalog}
use sctp_conformance.Catalog.References.{rfc_references_for_feature, make_rfc_reference}

-- The message to be abandoned and the final one can be told apart.
abbrev pub Distinguishable : List MessageSpec → Type 0
Distinguishable (m ∷ n ∷ ms) = materialize_payload m ≢ materialize_payload (last_of n ms)
Distinguishable _ = ⊥

pub record IsRunnable (d : FeatureDefinition) : Type 0 where
  pub has_address : 1 ≤ d.bind_address_count
  pub has_time : 1 ≤ d.timeout_seconds
  pub has_reference : d.rfc_references ≢ []
  -- Only the agent can report on a feature without traffic.
  pub reported : d.scenario_kind ≡ agent_only → d.completion_mode ≡ agent_reported
  -- A worker that waits for messages has some to wait for.
  pub has_messages : d.scenario_kind ≡ receive_messages → d.client_send_messages ≢ []
  -- There is one socket for each message.
  pub has_targets :
      d.scenario_kind ≡ receive_messages_multi_target
      → (target_count d ≡ length d.client_send_messages) × (target_count d ≢ 0)
  -- Two ids are there to be compared.
  pub is_pair :
      (c : OneToManyContract) → requires_ids (d.one_to_many) ≡ some c → c.expected_associations ≡ 2
  pub has_final : d.scenario_kind ≡ receive_pr_messages → Distinguishable d.client_send_messages

-- By the sizes.
abbrev lengths_differ : List MessageSpec → Bool
lengths_differ (m ∷ n ∷ ms) =
    leb (last_of n ms).size_bytes (length (last_of n ms).payload)
    && ltb (length (last_of n ms).payload) m.size_bytes
    && ltb (length m.payload) m.size_bytes
lengths_differ _ = false

lengths_differ_sound :
    (messages : List MessageSpec) → lengths_differ messages ≡ true → Distinguishable messages
lengths_differ_sound [] h = ground arith
lengths_differ_sound (m ∷ []) h = ground arith
lengths_differ_sound (m ∷ n ∷ ms) h = λ e.
    let same : length (materialize_payload m) ≡ length (materialize_payload (last_of n ms)) =
      ap length e in
    ground (arith, length-materialize_payload m, length-materialize_payload (last_of n ms))

-- The test of what depends on the scenario.
abbrev kind_ok : FeatureDefinition → ScenarioKind → Bool
kind_ok d agent_only = elim (d.completion_mode) [ agent_reported ↦ true | _ ↦ false ]
kind_ok d receive_messages = not (is_empty d.client_send_messages)
kind_ok d receive_messages_multi_target =
    target_count d == length d.client_send_messages && not (target_count d == 0)
kind_ok d receive_pr_messages = lengths_differ d.client_send_messages
kind_ok d send_after_trigger = true

abbrev pair_ok : Option OneToManyContract → Bool
pair_ok none = true
pair_ok (some c) = c.expected_associations == 2

abbrev is_runnable : FeatureDefinition → Bool
is_runnable d =
    leb 1 d.bind_address_count
    && leb 1 d.timeout_seconds
    && not (is_empty d.rfc_references)
    && kind_ok d d.scenario_kind
    && pair_ok (requires_ids (d.one_to_many))

is_runnable_sound : (d : FeatureDefinition) → is_runnable d ≡ true → IsRunnable d
is_runnable_sound d h = record {
  has_address = ground arith;
  has_time = ground arith;
  has_reference = ground arith;
  reported = λ k. ground arith;
  has_messages = λ k. ground arith;
  has_targets = λ k. ground arith;
  is_pair = λ c k. ground arith;
  has_final = λ k. lengths_differ_sound d.client_send_messages (ground arith);
}

abbrev all_runnable : List FeatureDefinition → Bool
all_runnable [] = true
all_runnable (d ∷ rest) = is_runnable d && all_runnable rest

all_runnable_sound :
    (catalog : List FeatureDefinition) → all_runnable catalog ≡ true → All IsRunnable catalog
all_runnable_sound [] h = tt
all_runnable_sound (d ∷ rest) h =
    (is_runnable_sound d (ground arith), all_runnable_sound rest (ground arith))

-- Every feature of the catalog has an address, a timeout and a reference, an expected message where
-- its worker waits for one, one target for each message of a multi-target scenario, exactly two
-- associations where ids are compared, and for partial reliability a final message that differs as
-- sent from the one to be abandoned.
pub build_feature_catalog-IsRunnable : All IsRunnable build_feature_catalog
unfolding build_feature_catalog rfc_references_for_feature make_rfc_reference bytes_eq requires_ids
    target_count
build_feature_catalog-IsRunnable = all_runnable_sound build_feature_catalog refl
