-- ===== src/Catalog/Extensions.antt =====
-- Features of `build_feature_catalog` in server/freebsd_ref/main.cpp: `pr_sctp_ttl` to `stream_scheduler_value`.
use sctp_conformance.Base.{true, false, List, [], ◌∷◌, some, codes}
use sctp_conformance.Feature.{FeatureDefinition, hybrid, receive_pr_messages}
use sctp_conformance.Catalog.Makers.{
  make_receive_feature, make_send_feature, spec, sized, k_sctp_chunk_asconf,
  k_sctp_chunk_asconf_ack,
}

abbrev pub pr_sctp_ttl_feature : FeatureDefinition
pr_sctp_ttl_feature =
    record (make_receive_feature (codes "pr_sctp_ttl") (codes "PR-SCTP TTL policy")
      (codes "reliability")
      (codes
        "Apply time-based partial reliability and verify forward progress under operator-provided impairment.")
      hybrid 30
      (codes
        "Apply the documented traffic impairment on the Linux client host, configure a TTL-based partially reliable send, then send the reliable follow-up message.")
      (record {
        payload = codes "pr-ttl-drop";
        stream = 17;
        ppid = 1701;
        size_bytes = 32768;
        unordered = false;
        pr_policy = codes "ttl";
        pr_value = 250;
        auth_key_id = 0;
      }
        ∷ spec (codes "pr-ttl-delivered") 17 1702
        ∷ [])
      (codes "SCTP_DEFAULT_PRINFO" ∷ []) []
      (codes "Report the TTL policy applied and confirm the manual impairment was active.") 1 0) {
        scenario_kind = receive_pr_messages;
        manual_setup_required = true;
        manual_setup_instructions =
            (codes
                "On the Linux client host, apply temporary impairment before running this feature, for example:"
              ∷ codes "sudo tc qdisc replace dev <iface> root netem loss 30% delay 200ms 40ms"
              ∷ codes "After the test run, remove it with: sudo tc qdisc del dev <iface> root"
              ∷ []);
      }

abbrev pub pr_sctp_rtx_feature : FeatureDefinition
pr_sctp_rtx_feature =
    record (make_receive_feature (codes "pr_sctp_rtx") (codes "PR-SCTP retransmission policy")
      (codes "reliability")
      (codes
        "Apply retransmission-limited partial reliability and verify forward progress under operator-provided impairment.")
      hybrid 30
      (codes
        "Apply the documented traffic impairment on the Linux client host, configure a retransmission-limited partially reliable send, then send the reliable follow-up message.")
      (record {
        payload = codes "pr-rtx-drop";
        stream = 17;
        ppid = 1703;
        size_bytes = 32768;
        unordered = false;
        pr_policy = codes "rtx";
        pr_value = 1;
        auth_key_id = 0;
      }
        ∷ spec (codes "pr-rtx-delivered") 17 1704
        ∷ [])
      (codes "SCTP_DEFAULT_PRINFO" ∷ []) []
      (codes
        "Report the retransmission policy applied and confirm the manual impairment was active.")
      1 0) {
        scenario_kind = receive_pr_messages;
        manual_setup_required = true;
        manual_setup_instructions = pr_sctp_ttl_feature.manual_setup_instructions;
      }

abbrev pub auth_required_chunks_feature : FeatureDefinition
auth_required_chunks_feature =
    record (make_receive_feature (codes "auth_required_chunks") (codes "SCTP AUTH required chunks")
      (codes "authentication")
      (codes "Configure authenticated chunk coverage before sending the probe payload.") hybrid 25
      (codes
        "Configure SCTP AUTH chunk coverage and shared keys, connect to the server, send the probe payload, then report the AUTH setup attempted.")
      (spec (codes "auth-required-check") 22 2201 ∷ [])
      (codes "SCTP_AUTH_CHUNK" ∷ codes "SCTP_AUTH_KEY" ∷ []) []
      (codes "Report the AUTH chunk types and key ids configured on the client.") 1 0) {
        auth = some (record {
          chunk_types = (k_sctp_chunk_asconf ∷ k_sctp_chunk_asconf_ack ∷ []);
          primary_key_id = 7;
          primary_secret = codes "auth-required-primary";
          secondary_key_id = 8;
          secondary_secret = codes "auth-required-secondary";
        });
        manual_setup_required = true;
        manual_setup_instructions =
            (codes "On the Linux client host, enable SCTP AUTH before running this feature:"
              ∷ codes "sudo sysctl -w net.sctp.auth_enable=1"
              ∷ []);
      }

abbrev pub auth_key_rotation_feature : FeatureDefinition
auth_key_rotation_feature =
    record (make_receive_feature (codes "auth_key_rotation") (codes "SCTP AUTH key rotation")
      (codes "authentication") (codes "Rotate SCTP AUTH keys before sending the probe payload.")
      hybrid 25
      (codes
        "Install two SCTP AUTH keys, activate the secondary key, connect to the server, send the probe payload, then report the key-rotation sequence attempted.")
      (record {
        payload = codes "auth-key-rotation";
        stream = 22;
        ppid = 2202;
        size_bytes = 0;
        unordered = false;
        pr_policy = [];
        pr_value = 0;
        auth_key_id = 8;
      }
        ∷ [])
      (codes "SCTP_AUTH_KEY" ∷ codes "SCTP_AUTH_ACTIVE_KEY" ∷ []) []
      (codes
        "Report the SCTP AUTH key ids installed and which key was activated for the send path.")
      1 0) {
        auth = some (record {
          chunk_types = (k_sctp_chunk_asconf ∷ k_sctp_chunk_asconf_ack ∷ []);
          primary_key_id = 7;
          primary_secret = codes "auth-rotation-primary";
          secondary_key_id = 8;
          secondary_secret = codes "auth-rotation-secondary";
        });
        manual_setup_required = true;
        manual_setup_instructions = auth_required_chunks_feature.manual_setup_instructions;
      }

abbrev pub asconf_add_remove_feature : FeatureDefinition
asconf_add_remove_feature =
    record (make_receive_feature (codes "asconf_add_remove") (codes "ASCONF address add/remove")
      (codes "multihoming")
      (codes "Attempt dynamic address reconfiguration on the client association.") hybrid 30
      (codes
        "If the client environment exposes dynamic address reconfiguration, add and remove the provided local SCTP addresses, send the probe payload, then report the operations attempted.")
      (spec (codes "asconf-check") 23 2301 ∷ [])
      (codes "SCTP_BINDX" ∷ codes "SCTP_SET_PEER_PRIMARY_ADDR" ∷ []) []
      (codes
        "Report which addresses were added and removed through the client's address-reconfiguration API.")
      2 0) {
        address_reconfig = some (record {
          add_addresses = (codes "127.0.0.2:0" ∷ []);
          remove_addresses = (codes "127.0.0.2:0" ∷ []);
        });
        manual_setup_required = true;
        manual_setup_instructions =
            (codes
                "On the Linux client host, enable SCTP dynamic address reconfiguration before running this feature:"
              ∷ codes "sudo sysctl -w net.sctp.addip_enable=1"
              ∷ codes
                  "Ensure the add/remove addresses exist locally, or adjust the contract to use host-local addresses."
              ∷ []);
      }

abbrev pub idata_interleaving_feature : FeatureDefinition
idata_interleaving_feature =
    record (make_send_feature (codes "idata_interleaving") (codes "I-DATA / fragment interleaving")
      (codes "messaging")
      (codes
        "Enable fragment interleaving and observe server traffic that mixes one large message with smaller messages.")
      hybrid 30
      (codes
        "Enable fragment interleaving, connect to the server, send the trigger payload, receive the server messages, and report whether smaller messages made progress while the large message was in flight.")
      (codes "idata-interleave-ready")
      (sized (codes "idata-large") 18 1801 65536
        ∷ spec (codes "idata-small-a") 19 1802
        ∷ spec (codes "idata-small-b") 19 1803
        ∷ [])
      []
      (codes
        "Report the fragment-interleave level applied and the receive ordering observed for the server messages.")) {
          interleaving = some (record {
            fragment_interleave_level = 2;
            large_message_size = 65536;
            large_stream = 18;
            large_ppid = 1801;
            small_stream = 19;
            small_ppid = 1802;
            small_message_count = 2;
          });
        }

abbrev pub stream_scheduler_policy_feature : FeatureDefinition
stream_scheduler_policy_feature =
    record (make_send_feature (codes "stream_scheduler_policy") (codes "Stream scheduler policy")
      (codes "scheduler")
      (codes "Select a non-default SCTP stream scheduler policy on the active association.") hybrid
      25
      (codes
        "Connect to the server, send the trigger payload, apply the requested stream scheduler policy, receive the acknowledgement, and report the scheduler configuration attempted.")
      (codes "scheduler-policy-ready") (spec (codes "scheduler-policy-ack") 20 2001 ∷ []) []
      (codes "Report the SCTP stream scheduler policy applied and whether the call succeeded.")) {
        scheduler = some (record {
          policy = codes "priority";
          primary_stream = 20;
          secondary_stream = 21;
          primary_value = 32;
          secondary_value = 8;
          message_count = 12;
        });
      }

abbrev pub stream_scheduler_value_feature : FeatureDefinition
stream_scheduler_value_feature =
    record (make_send_feature (codes "stream_scheduler_value") (codes "Stream scheduler value")
      (codes "scheduler") (codes "Apply per-stream scheduler values on the active association.")
      hybrid 25
      (codes
        "Connect to the server, send the trigger payload, apply the requested per-stream scheduler values, receive the acknowledgement, and report the values attempted.")
      (codes "scheduler-value-ready") (spec (codes "scheduler-value-ack") 21 2101 ∷ []) []
      (codes "Report the per-stream scheduler values attempted and whether the calls succeeded.")) {
        scheduler = some (record {
          policy = codes "priority";
          primary_stream = 20;
          secondary_stream = 21;
          primary_value = 64;
          secondary_value = 4;
          message_count = 12;
        });
      }

abbrev pub extensions : List FeatureDefinition
extensions =
    pr_sctp_ttl_feature ∷ pr_sctp_rtx_feature ∷ auth_required_chunks_feature
    ∷ auth_key_rotation_feature ∷ asconf_add_remove_feature ∷ idata_interleaving_feature
    ∷ stream_scheduler_policy_feature ∷ stream_scheduler_value_feature ∷ []
