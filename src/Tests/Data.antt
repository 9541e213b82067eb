-- ===== src/Tests/Data.antt =====
-- Inputs of the runs: a platform, an agent's feature, and its executions.
use sctp_conformance.Base.{ℕ, true, false, List, [], ◌∷◌, none, Bytes, codes}
use sctp_conformance.Base.Int.{ℤ, pos}
use sctp_conformance.Feature.{
  FeatureDefinition, CompletionMode, ScenarioKind, receive_messages, MessageSpec, FeatureState,
  active, OneToManyContract,
}
use sctp_conformance.Session.{Slot}
use sctp_conformance.Socket.{Platform, ServerOptions, KernelAnswers}
use sctp_conformance.Worker.{Message}

abbrev pub platform : Platform
platform = record {
  strerror = λ _. codes "error";
  eaddrnotavail = 49;
  ewouldblock = 35;
  eagain = 35;
}

abbrev pub options : ServerOptions
options = record {
  http_host = codes "127.0.0.1";
  http_port = 18080;
  sctp_bind_addrs = codes "127.0.0.1" ∷ [];
  sctp_advertise_addrs = [];
}

abbrev pub kernel : KernelAnswers
kernel = record {
  socket = pos 5;
  socket_errno = 0;
  set_initmsg = none;
  set_events = none;
  set_recvrcvinfo = none;
  set_timeout = none;
  is_ipv4 = λ _. true;
  bind = none;
  first_getsockname = none;
  bindx = none;
  listen = none;
  getsockname = none;
  port = 9000;
}

abbrev pub no_utc : ℕ → Bytes
no_utc _ = []

abbrev pub spec : MessageSpec
spec = record {
  payload = codes "hello";
  stream = 1;
  ppid = 7;
  size_bytes = 0;
  unordered = false;
  pr_policy = [];
  pr_value = 0;
  auth_key_id = 0;
}

abbrev pub last_spec : MessageSpec
last_spec = record spec { payload = codes "bye" }

abbrev pub hello : Message
hello = record { payload = codes "hello"; sid = 1; ppid = 7; assoc_id = 3 }

abbrev pub bye : Message
bye = record { payload = codes "bye"; sid = 1; ppid = 7; assoc_id = 3 }

abbrev pub feature : CompletionMode → ScenarioKind → FeatureDefinition
feature mode kind = record {
  id = codes "f";
  title = codes "Feature";
  category = codes "basic";
  summary = [];
  rfc_references = [];
  instructions_text = [];
  completion_mode = mode;
  scenario_kind = kind;
  timeout_seconds = 30;
  bind_address_count = 1;
  client_socket_options = [];
  client_subscriptions = [];
  client_send_messages = spec ∷ [];
  server_send_messages = [];
  report_prompt = [];
  trigger_payload = [];
  negative_connect_target = [];
  expected_peer_addr_count = 0;
  auth = none;
  address_reconfig = none;
  interleaving = none;
  scheduler = none;
  socket_tuning = none;
  one_to_many = none;
  manual_setup_required = false;
  manual_setup_instructions = [];
}

abbrev pub pair : OneToManyContract
pair = record {
  expected_associations = 2;
  same_socket_required = true;
  require_distinct_assoc_ids = true;
}

-- A feature in the given state, whose deadline is at 100 and which holds descriptor 5.
abbrev pub slot : CompletionMode → FeatureState → List ℤ → Bytes → Slot
slot mode state fds active_id = record {
  active_feature_id = active_id;
  execution = record {
    definition = feature mode receive_messages;
    state = state;
    message = [];
    evidence_kind = [];
    evidence_text = [];
    report_text = [];
    contract_json = [];
    network_complete = false;
    agent_complete = false;
    active_fds = fds;
    assoc_ids = [];
    started_at = 0;
    deadline_at = 100;
    finished_at = 0;
  };
  closed = [];
}

abbrev pub running : CompletionMode → Slot
running mode = slot mode active (pos 5 ∷ []) (codes "f")
