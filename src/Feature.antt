-- ===== src/Feature.antt =====
-- The data of a feature in server/freebsd_ref/main.cpp: messages, contracts and `FeatureDefinition`.
-- The fixed-width fields are numbers; nothing computes with them but `size_bytes`.
use sctp_conformance.Base.{ℕ, Bool, List, Option, Bytes}

pub record MessageSpec : Type 0 where
  pub payload : Bytes
  pub stream : ℕ
  pub ppid : ℕ
  pub size_bytes : ℕ
  pub unordered : Bool
  pub pr_policy : Bytes
  pub pr_value : ℕ
  pub auth_key_id : ℕ

pub record AuthContract : Type 0 where
  pub chunk_types : Bytes
  pub primary_key_id : ℕ
  pub primary_secret : Bytes
  pub secondary_key_id : ℕ
  pub secondary_secret : Bytes

pub record AddressReconfigContract : Type 0 where
  pub add_addresses : List Bytes
  pub remove_addresses : List Bytes

pub record InterleavingContract : Type 0 where
  pub fragment_interleave_level : ℕ
  pub large_message_size : ℕ
  pub large_stream : ℕ
  pub large_ppid : ℕ
  pub small_stream : ℕ
  pub small_ppid : ℕ
  pub small_message_count : ℕ

pub record SchedulerContract : Type 0 where
  pub policy : Bytes
  pub primary_stream : ℕ
  pub secondary_stream : ℕ
  pub primary_value : ℕ
  pub secondary_value : ℕ
  pub message_count : ℕ

pub record SocketTuningContract : Type 0 where
  pub delayed_sack_delay_ms : ℕ
  pub delayed_sack_freq : ℕ
  pub max_burst : ℕ
  pub maxseg : ℕ

pub record OneToManyContract : Type 0 where
  pub expected_associations : ℕ
  pub same_socket_required : Bool
  pub require_distinct_assoc_ids : Bool

pub data CompletionMode : Type 0 where
  server_observed agent_reported hybrid : CompletionMode

pub data ScenarioKind : Type 0 where
  agent_only receive_messages receive_messages_multi_target : ScenarioKind
  send_after_trigger receive_pr_messages : ScenarioKind

pub data FeatureState : Type 0 where
  pending active passed failed unsupported timed_out : FeatureState

pub record RfcReference : Type 0 where
  pub rfc : Bytes
  pub section : Bytes
  pub title : Bytes
  pub url : Bytes

pub record FeatureDefinition : Type 0 where
  pub id : Bytes
  pub title : Bytes
  pub category : Bytes
  pub summary : Bytes
  pub rfc_references : List RfcReference
  pub instructions_text : Bytes
  pub completion_mode : CompletionMode
  pub scenario_kind : ScenarioKind
  pub timeout_seconds : ℕ
  pub bind_address_count : ℕ
  pub client_socket_options : List Bytes
  pub client_subscriptions : List Bytes
  pub client_send_messages : List MessageSpec
  pub server_send_messages : List MessageSpec
  pub report_prompt : Bytes
  pub trigger_payload : Bytes
  pub negative_connect_target : Bytes
  pub expected_peer_addr_count : ℕ
  pub auth : Option AuthContract
  pub address_reconfig : Option AddressReconfigContract
  pub interleaving : Option InterleavingContract
  pub scheduler : Option SchedulerContract
  pub socket_tuning : Option SocketTuningContract
  pub one_to_many : Option OneToManyContract
  pub manual_setup_required : Bool
  pub manual_setup_instructions : List Bytes
