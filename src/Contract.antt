-- ===== src/Contract.antt =====
-- The JSON that server/freebsd_ref/main.cpp writes about a feature: `json_rfc_references` to
-- `json_one_to_many_contract`, and `build_contract`.
use sctp_conformance.Base.{
  ℕ, Bool, true, false, List, [], ◌∷◌, ◌++◌, Option, none, some, ◌==◌, if◌then◌else◌, Bytes, codes,
  is_empty, decimal,
}
use sctp_conformance.Text.{json_quote, json_bool, json_array_strings, json_array_uint8}
use sctp_conformance.Feature.{
  MessageSpec, AuthContract, AddressReconfigContract, InterleavingContract, SchedulerContract,
  SocketTuningContract, OneToManyContract, CompletionMode, server_observed, agent_reported, hybrid,
  FeatureState, pending, active, passed, failed, unsupported, timed_out, RfcReference,
  FeatureDefinition,
}

-- `to_string(CompletionMode)`
unfoldable pub mode_string : CompletionMode → Bytes
mode_string server_observed = codes "server_observed"
mode_string agent_reported = codes "agent_reported"
mode_string hybrid = codes "hybrid"

-- `to_string(FeatureState)`
unfoldable pub state_string : FeatureState → Bytes
state_string pending = codes "pending"
state_string active = codes "active"
state_string passed = codes "passed"
state_string failed = codes "failed"
state_string unsupported = codes "unsupported"
state_string timed_out = codes "timed_out"

-- Pieces written one after the other.
unfoldable pub concat : List Bytes → Bytes
concat [] = []
concat (p ∷ ps) = p ++ concat ps

-- `if (i != 0) out << ","`
abbrev pub comma : Bool → Bytes
comma first = if first then [] else codes ","

-- A field of an object: the text in front of the value, and the value.
abbrev quoted : Bytes → Bytes → Bytes
quoted before value = before ++ json_quote value

abbrev number : Bytes → ℕ → Bytes
number before value = before ++ decimal value

unfoldable pub rfc_references_from : Bool → List RfcReference → Bytes
unfolding concat
rfc_references_from first [] = []
rfc_references_from first (v ∷ vs) =
    concat (
      comma first
      ∷ codes "{"
      ∷ quoted (codes "\"rfc\":") v.rfc
      ∷ quoted (codes ",\"section\":") v.section
      ∷ quoted (codes ",\"title\":") v.title
      ∷ quoted (codes ",\"url\":") v.url
      ∷ codes "}"
      ∷ [])
    ++ rfc_references_from false vs

unfoldable pub json_rfc_references : List RfcReference → Bytes
unfolding rfc_references_from
json_rfc_references values = codes "[" ++ (rfc_references_from true values ++ codes "]")

-- The body of the loop of `json_messages`, without the comma.
unfoldable pub json_message : MessageSpec → Bytes
unfolding concat
json_message v = concat (
    codes "{"
    ∷ quoted (codes "\"payload\":") v.payload
    ∷ number (codes ",\"stream\":") v.stream
    ∷ number (codes ",\"ppid\":") v.ppid
    ∷ (if v.size_bytes == 0 then [] else number (codes ",\"size_bytes\":") v.size_bytes)
    ∷ (if v.unordered then codes ",\"unordered\":true" else [])
    ∷ (if is_empty v.pr_policy then [] else quoted (codes ",\"pr_policy\":") v.pr_policy)
    ∷ (if v.pr_value == 0 then [] else number (codes ",\"pr_value\":") v.pr_value)
    ∷ (if v.auth_key_id == 0 then [] else number (codes ",\"auth_key_id\":") v.auth_key_id)
    ∷ codes "}"
    ∷ [])

unfoldable pub messages_from : Bool → List MessageSpec → Bytes
unfolding json_message
messages_from first [] = []
messages_from first (v ∷ vs) = comma first ++ (json_message v ++ messages_from false vs)

unfoldable pub json_messages : List MessageSpec → Bytes
unfolding messages_from
json_messages values = codes "[" ++ (messages_from true values ++ codes "]")

unfoldable pub json_auth_contract : AuthContract → Bytes
unfolding concat
json_auth_contract auth = concat (
    codes "{\"chunk_types\":"
    ∷ json_array_uint8 auth.chunk_types
    ∷ number (codes ",\"primary_key_id\":") auth.primary_key_id
    ∷ quoted (codes ",\"primary_secret\":") auth.primary_secret
    ∷ number (codes ",\"secondary_key_id\":") auth.secondary_key_id
    ∷ quoted (codes ",\"secondary_secret\":") auth.secondary_secret
    ∷ codes "}"
    ∷ [])

unfoldable pub json_address_reconfig_contract : AddressReconfigContract → Bytes
unfolding concat
json_address_reconfig_contract config = concat (
    codes "{\"add_addresses\":"
    ∷ json_array_strings config.add_addresses
    ∷ codes ",\"remove_addresses\":"
    ∷ json_array_strings config.remove_addresses
    ∷ codes "}"
    ∷ [])

unfoldable pub json_interleaving_contract : InterleavingContract → Bytes
unfolding concat
json_interleaving_contract config = concat (
    number (codes "{\"fragment_interleave_level\":") config.fragment_interleave_level
    ∷ number (codes ",\"large_message_size\":") config.large_message_size
    ∷ number (codes ",\"large_stream\":") config.large_stream
    ∷ number (codes ",\"large_ppid\":") config.large_ppid
    ∷ number (codes ",\"small_stream\":") config.small_stream
    ∷ number (codes ",\"small_ppid\":") config.small_ppid
    ∷ number (codes ",\"small_message_count\":") config.small_message_count
    ∷ codes "}"
    ∷ [])

unfoldable pub json_scheduler_contract : SchedulerContract → Bytes
unfolding concat
json_scheduler_contract config = concat (
    quoted (codes "{\"policy\":") config.policy
    ∷ number (codes ",\"primary_stream\":") config.primary_stream
    ∷ number (codes ",\"secondary_stream\":") config.secondary_stream
    ∷ number (codes ",\"primary_value\":") config.primary_value
    ∷ number (codes ",\"secondary_value\":") config.secondary_value
    ∷ number (codes ",\"message_count\":") config.message_count
    ∷ codes "}"
    ∷ [])

-- The calls of the lambda `append`, which skips a value of 0, with its flag `first`.
unfoldable pub append_nonzero : Bool → List (Bytes × ℕ) → Bytes
append_nonzero first [] = []
append_nonzero first ((key, value) ∷ rest) =
    let skipped = append_nonzero first rest in
    let written =
      comma first
      ++ (json_quote key ++ (codes ":" ++ (decimal value ++ append_nonzero false rest))) in
    if value == 0 then skipped else written

unfoldable pub json_socket_tuning_contract : SocketTuningContract → Bytes
unfolding append_nonzero
json_socket_tuning_contract config =
    codes "{"
    ++ (append_nonzero true (
          (codes "delayed_sack_delay_ms", config.delayed_sack_delay_ms)
          ∷ (codes "delayed_sack_freq", config.delayed_sack_freq)
          ∷ (codes "max_burst", config.max_burst)
          ∷ (codes "maxseg", config.maxseg)
          ∷ [])
        ++ codes "}")

unfoldable pub json_one_to_many_contract : OneToManyContract → Bytes
unfolding concat
json_one_to_many_contract config = concat (
    number (codes "{\"expected_associations\":") config.expected_associations
    ∷ codes ",\"same_socket_required\":"
    ∷ json_bool config.same_socket_required
    ∷ codes ",\"require_distinct_assoc_ids\":"
    ∷ json_bool config.require_distinct_assoc_ids
    ∷ codes "}"
    ∷ [])

-- `if (feature.x) out << key << f(*feature.x)`
abbrev optional {ℓ} : {A : Type ℓ} → Bytes → (A → Bytes) → Option A → Bytes
optional key f none = []
optional key f (some a) = key ++ f a

unfoldable pub build_contract : FeatureDefinition → List Bytes → Bytes
unfolding concat
build_contract feature connect_addrs = concat (
    quoted (codes "{\"feature_id\":") feature.id
    ∷ quoted (codes ",\"completion_mode\":") (mode_string feature.completion_mode)
    ∷ codes ",\"transport\":\"sctp4\""
    ∷ codes ",\"connect_addresses\":"
    ∷ json_array_strings connect_addrs
    ∷ codes ",\"client_socket_options\":"
    ∷ json_array_strings feature.client_socket_options
    ∷ codes ",\"client_subscriptions\":"
    ∷ json_array_strings feature.client_subscriptions
    ∷ codes ",\"client_send_messages\":"
    ∷ json_messages feature.client_send_messages
    ∷ codes ",\"server_send_messages\":"
    ∷ json_messages feature.server_send_messages
    ∷ quoted (codes ",\"trigger_payload\":") feature.trigger_payload
    ∷ quoted (codes ",\"negative_connect_target\":") feature.negative_connect_target
    ∷ number (codes ",\"timeout_seconds\":") feature.timeout_seconds
    ∷ codes ",\"manual_setup_required\":"
    ∷ json_bool feature.manual_setup_required
    ∷ codes ",\"manual_setup_instructions\":"
    ∷ json_array_strings feature.manual_setup_instructions
    ∷ quoted (codes ",\"report_prompt\":") feature.report_prompt
    ∷ quoted (codes ",\"instructions_text\":") feature.instructions_text
    ∷ optional (codes ",\"auth\":") json_auth_contract feature.auth
    ∷ optional (codes ",\"address_reconfig\":") json_address_reconfig_contract
        feature.address_reconfig
    ∷ optional (codes ",\"interleaving\":") json_interleaving_contract feature.interleaving
    ∷ optional (codes ",\"scheduler\":") json_scheduler_contract feature.scheduler
    ∷ optional (codes ",\"socket_tuning\":") json_socket_tuning_contract feature.socket_tuning
    ∷ optional (codes ",\"one_to_many\":") json_one_to_many_contract feature.one_to_many
    ∷ codes "}"
    ∷ [])
