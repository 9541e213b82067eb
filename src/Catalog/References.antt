-- ===== src/Catalog/References.antt =====
-- `make_rfc_reference` and `rfc_references_for_feature` of server/freebsd_ref/main.cpp.
use sctp_conformance.Base.{List, [], ◌∷◌, ◌++◌, ◌||◌, if◌then◌else◌, Bytes, codes, bytes_eq}
use sctp_conformance.Feature.{RfcReference}

unfoldable pub make_rfc_reference : Bytes → Bytes → Bytes → RfcReference
make_rfc_reference rfc_number section title = record {
  rfc = codes "RFC " ++ rfc_number;
  section = section;
  title = title;
  url =
      codes "https://www.rfc-editor.org/rfc/rfc"
      ++ (rfc_number ++ (codes ".html#section-" ++ section));
}

unfoldable pub rfc_references_for_feature : Bytes → List RfcReference
unfolding bytes_eq make_rfc_reference
rfc_references_for_feature feature_id =
    if bytes_eq feature_id (codes "socket_create")
    then make_rfc_reference (codes "6458") (codes "4.1.1") (codes "socket()") ∷ []
    else if bytes_eq feature_id (codes "bind_listen_connect")
    then make_rfc_reference (codes "6458") (codes "4.1.2") (codes "bind()")
      ∷ make_rfc_reference (codes "6458") (codes "4.1.5") (codes "connect()")
      ∷ []
    else if bytes_eq feature_id (codes "single_message_boundary")
        || bytes_eq feature_id (codes "multi_message_boundary")
        || bytes_eq feature_id (codes "stream_id")
        || bytes_eq feature_id (codes "ppid")
        || bytes_eq feature_id (codes "unordered_delivery")
    then make_rfc_reference (codes "9260") (codes "3.3.1") (codes "Payload Data (DATA) Chunk") ∷ []
    else if bytes_eq feature_id (codes "nodelay")
    then make_rfc_reference (codes "6458") (codes "8.1.5") (codes "SCTP_NODELAY") ∷ []
    else if bytes_eq feature_id (codes "initmsg")
    then make_rfc_reference (codes "6458") (codes "8.1.3")
        (codes "Initialization Parameters (SCTP_INITMSG)")
      ∷ []
    else if bytes_eq feature_id (codes "rto_assoc_parameters")
    then make_rfc_reference (codes "6458") (codes "8.1.1")
        (codes "Retransmission Timeout Parameters (SCTP_RTOINFO)")
      ∷ []
    else if bytes_eq feature_id (codes "delayed_sack_tuning")
    then make_rfc_reference (codes "6458") (codes "8.1.19")
        (codes "Get or Set Delayed SACK Timer (SCTP_DELAYED_SACK)")
      ∷ []
    else if bytes_eq feature_id (codes "max_burst_tuning")
    then make_rfc_reference (codes "6458") (codes "8.1.24")
        (codes "Set or Get the Maximum Burst (SCTP_MAX_BURST)")
      ∷ []
    else if bytes_eq feature_id (codes "notifications")
        || bytes_eq feature_id (codes "event_subscription_matrix")
    then make_rfc_reference (codes "6458") (codes "6.2.2") (codes "SCTP_EVENT Option")
      ∷ make_rfc_reference (codes "6458") (codes "6.1.1") (codes "SCTP_ASSOC_CHANGE")
      ∷ []
    else if bytes_eq feature_id (codes "peer_addr_change_notifications")
    then make_rfc_reference (codes "6458") (codes "6.1.2") (codes "SCTP_PEER_ADDR_CHANGE")
      ∷ make_rfc_reference (codes "6458") (codes "6.2.2") (codes "SCTP_EVENT Option")
      ∷ []
    else if bytes_eq feature_id (codes "association_shutdown_notifications")
    then make_rfc_reference (codes "6458") (codes "6.1.1") (codes "SCTP_ASSOC_CHANGE")
      ∷ make_rfc_reference (codes "6458") (codes "6.1.5") (codes "SCTP_SHUTDOWN_EVENT")
      ∷ []
    else if bytes_eq feature_id (codes "partial_delivery_event")
    then make_rfc_reference (codes "6458") (codes "6.1.7") (codes "SCTP_PARTIAL_DELIVERY_EVENT")
      ∷ make_rfc_reference (codes "6458") (codes "6.2.2") (codes "SCTP_EVENT Option")
      ∷ []
    else if bytes_eq feature_id (codes "multi_bind")
    then make_rfc_reference (codes "9260") (codes "3.3.2.1")
        (codes "Optional or Variable-Length Parameters in INIT Chunks")
      ∷ make_rfc_reference (codes "9260") (codes "3.3.3.1")
          (codes "Optional or Variable-Length Parameters in INIT ACK Chunks")
      ∷ []
    else if bytes_eq feature_id (codes "local_addr_enum")
    then make_rfc_reference (codes "6458") (codes "9.5") (codes "sctp_getladdrs()") ∷ []
    else if bytes_eq feature_id (codes "peer_addr_enum")
    then make_rfc_reference (codes "6458") (codes "9.3") (codes "sctp_getpaddrs()") ∷ []
    else if bytes_eq feature_id (codes "negative_connect_error")
    then make_rfc_reference (codes "6458") (codes "4.1.5") (codes "connect()") ∷ []
    else if bytes_eq feature_id (codes "default_sndinfo_recvrcvinfo")
    then make_rfc_reference (codes "6458") (codes "8.1.29") (codes "SCTP_RECVRCVINFO")
      ∷ make_rfc_reference (codes "6458") (codes "8.1.31") (codes "SCTP_DEFAULT_SNDINFO")
      ∷ []
    else if bytes_eq feature_id (codes "large_message_reassembly")
    then make_rfc_reference (codes "9260") (codes "6.9") (codes "Fragmentation and Reassembly") ∷ []
    else if bytes_eq feature_id (codes "maxseg_fragmentation")
    then make_rfc_reference (codes "6458") (codes "8.1.16")
        (codes "Get or Set the Maximum Fragmentation Size (SCTP_MAXSEG)")
      ∷ []
    else if bytes_eq feature_id (codes "recvnxtinfo")
    then make_rfc_reference (codes "6458") (codes "8.1.30") (codes "SCTP_RECVNXTINFO") ∷ []
    else if bytes_eq feature_id (codes "autoclose")
    then make_rfc_reference (codes "6458") (codes "8.1.8") (codes "SCTP_AUTOCLOSE") ∷ []
    else if bytes_eq feature_id (codes "bindx_add_remove")
    then make_rfc_reference (codes "6458") (codes "9.1") (codes "sctp_bindx()") ∷ []
    else if bytes_eq feature_id (codes "primary_addr_management")
    then make_rfc_reference (codes "6458") (codes "8.1.9") (codes "SCTP_PRIMARY_ADDR") ∷ []
    else if bytes_eq feature_id (codes "peer_primary_addr_request")
    then make_rfc_reference (codes "6458") (codes "8.3.1") (codes "SCTP_SET_PEER_PRIMARY_ADDR") ∷ []
    else if bytes_eq feature_id (codes "peeloff_assoc")
    then make_rfc_reference (codes "6458") (codes "9.2") (codes "sctp_peeloff()") ∷ []
    else if bytes_eq feature_id (codes "assoc_id_listing")
    then make_rfc_reference (codes "6458") (codes "8.2.6") (codes "SCTP_GET_ASSOC_ID_LIST") ∷ []
    else if bytes_eq feature_id (codes "assoc_status_opt_info")
    then make_rfc_reference (codes "6458") (codes "8.2.1") (codes "SCTP_STATUS") ∷ []
    else if bytes_eq feature_id (codes "one_to_many_multi_assoc")
    then make_rfc_reference (codes "6458") (codes "3.1.1") (codes "socket()")
      ∷ make_rfc_reference (codes "6458") (codes "3.1.6") (codes "connect()")
      ∷ []
    else if bytes_eq feature_id (codes "stream_reconfig_reset")
    then make_rfc_reference (codes "6525") (codes "4.1")
        (codes "Outgoing SSN Reset Request Parameter")
      ∷ make_rfc_reference (codes "6525") (codes "4.2")
          (codes "Incoming SSN Reset Request Parameter")
      ∷ []
    else if bytes_eq feature_id (codes "stream_reconfig_add_streams")
    then make_rfc_reference (codes "6525") (codes "4.5")
        (codes "Add Outgoing Streams Request Parameter")
      ∷ make_rfc_reference (codes "6525") (codes "4.6")
          (codes "Add Incoming Streams Request Parameter")
      ∷ []
    else if bytes_eq feature_id (codes "pr_sctp_ttl")
    then make_rfc_reference (codes "3758") (codes "3.5")
        (codes "Sender Side Implementation of PR-SCTP")
      ∷ make_rfc_reference (codes "3758") (codes "4.1")
          (codes "PR-SCTP Service Definition for Timed Reliability")
      ∷ []
    else if bytes_eq feature_id (codes "pr_sctp_rtx")
    then make_rfc_reference (codes "3758") (codes "3.5")
        (codes "Sender Side Implementation of PR-SCTP")
      ∷ make_rfc_reference (codes "3758") (codes "4.3")
          (codes "Guidelines for Defining Other PR-SCTP Services")
      ∷ []
    else if bytes_eq feature_id (codes "auth_required_chunks")
    then make_rfc_reference (codes "4895") (codes "3.2") (codes "Chunk List Parameter (CHUNKS)")
      ∷ make_rfc_reference (codes "4895") (codes "6.2") (codes "Sending Authenticated Chunks")
      ∷ []
    else if bytes_eq feature_id (codes "auth_key_rotation")
    then make_rfc_reference (codes "4895") (codes "6.1")
        (codes "Establishment of an Association Shared Key")
      ∷ make_rfc_reference (codes "4895") (codes "6.2") (codes "Sending Authenticated Chunks")
      ∷ []
    else if bytes_eq feature_id (codes "asconf_add_remove")
    then make_rfc_reference (codes "5061") (codes "4.2.1") (codes "Add IP Address")
      ∷ make_rfc_reference (codes "5061") (codes "4.2.2") (codes "Delete IP Address")
      ∷ []
    else if bytes_eq feature_id (codes "idata_interleaving")
    then make_rfc_reference (codes "8260") (codes "2.1")
        (codes "The I-DATA Chunk Supporting User Message Interleaving")
      ∷ make_rfc_reference (codes "8260") (codes "2.2.1") (codes "Negotiation")
      ∷ []
    else if bytes_eq feature_id (codes "stream_scheduler_policy")
    then make_rfc_reference (codes "8260") (codes "3.4")
        (codes "Priority-Based Scheduler (SCTP_SS_PRIO)")
      ∷ make_rfc_reference (codes "8260") (codes "4.3.2") (codes "SCTP_STREAM_SCHEDULER")
      ∷ []
    else if bytes_eq feature_id (codes "stream_scheduler_value")
    then make_rfc_reference (codes "8260") (codes "3.4")
        (codes "Priority-Based Scheduler (SCTP_SS_PRIO)")
      ∷ make_rfc_reference (codes "8260") (codes "4.3.3") (codes "SCTP_STREAM_SCHEDULER_VALUE")
      ∷ []
    else []
