-- ===== src/Catalog/Makers.antt =====
-- `make_agent_feature`, `make_receive_feature` and `make_send_feature` of
-- server/freebsd_ref/main.cpp. An argument that the code may leave out is always given.
use sctp_conformance.Base.{ℕ, false, List, [], none, Bytes}
use sctp_conformance.Feature.{
  FeatureDefinition, MessageSpec, CompletionMode, server_observed, agent_reported, agent_only,
  receive_messages, send_after_trigger,
}

abbrev pub k_sctp_chunk_asconf : ℕ
k_sctp_chunk_asconf = 0xc1

abbrev pub k_sctp_chunk_asconf_ack : ℕ
k_sctp_chunk_asconf_ack = 0x80

-- `MessageSpec{payload, stream, ppid, size_bytes}`
abbrev pub sized : Bytes → ℕ → ℕ → ℕ → MessageSpec
sized payload stream ppid size_bytes = record {
  payload = payload;
  stream = stream;
  ppid = ppid;
  size_bytes = size_bytes;
  unordered = false;
  pr_policy = [];
  pr_value = 0;
  auth_key_id = 0;
}

-- `MessageSpec{payload, stream, ppid}`
abbrev pub spec : Bytes → ℕ → ℕ → MessageSpec
spec payload stream ppid = sized payload stream ppid 0

-- `FeatureDefinition feature;`
abbrev pub new_feature : FeatureDefinition
new_feature = record {
  id = [];
  title = [];
  category = [];
  summary = [];
  rfc_references = [];
  instructions_text = [];
  completion_mode = server_observed;
  scenario_kind = agent_only;
  timeout_seconds = 20;
  bind_address_count = 1;
  client_socket_options = [];
  client_subscriptions = [];
  client_send_messages = [];
  server_send_messages = [];
  report_prompt = [];
  trigger_payload = [];
  negative_connect_target = [];
  expected_peer_addr_count = 0;
  auth = none;
  address_reconfig = none;
  interleaving = none;
  scheduler = none;
  socket_tuning = none;
  one_to_many = none;
  manual_setup_required = false;
  manual_setup_instructions = [];
}

abbrev pub make_agent_feature :
    Bytes → Bytes → Bytes → Bytes → ℕ → Bytes → Bytes → List Bytes → Bytes → FeatureDefinition
make_agent_feature id title category summary timeout_seconds instructions_text report_prompt
      socket_options negative_target =
    record new_feature {
      id = id;
      title = title;
      category = category;
      summary = summary;
      instructions_text = instructions_text;
      completion_mode = agent_reported;
      scenario_kind = agent_only;
      timeout_seconds = timeout_seconds;
      client_socket_options = socket_options;
      report_prompt = report_prompt;
      negative_connect_target = negative_target;
    }

abbrev pub make_receive_feature :
    Bytes
    → Bytes
    → Bytes
    → Bytes
    → CompletionMode
    → ℕ
    → Bytes
    → List MessageSpec
    → List Bytes
    → List Bytes
    → Bytes
    → ℕ
    → ℕ
    → FeatureDefinition
make_receive_feature id title category summary completion_mode timeout_seconds instructions_text
      messages socket_options subscriptions report_prompt bind_address_count
      expected_peer_addr_count =
    record new_feature {
      id = id;
      title = title;
      category = category;
      summary = summary;
      instructions_text = instructions_text;
      completion_mode = completion_mode;
      scenario_kind = receive_messages;
      timeout_seconds = timeout_seconds;
      bind_address_count = bind_address_count;
      client_socket_options = socket_options;
      client_subscriptions = subscriptions;
      client_send_messages = messages;
      report_prompt = report_prompt;
      expected_peer_addr_count = expected_peer_addr_count;
    }

abbrev pub make_send_feature :
    Bytes
    → Bytes
    → Bytes
    → Bytes
    → CompletionMode
    → ℕ
    → Bytes
    → Bytes
    → List MessageSpec
    → List Bytes
    → Bytes
    → FeatureDefinition
make_send_feature id title category summary completion_mode timeout_seconds instructions_text
      trigger_payload server_messages subscriptions report_prompt =
    record new_feature {
      id = id;
      title = title;
      category = category;
      summary = summary;
      instructions_text = instructions_text;
      completion_mode = completion_mode;
      scenario_kind = send_after_trigger;
      timeout_seconds = timeout_seconds;
      client_subscriptions = subscriptions;
      trigger_payload = trigger_payload;
      server_send_messages = server_messages;
      report_prompt = report_prompt;
    }
