-- ===== src/Catalog/Multihoming.antt =====
-- Features of `build_feature_catalog` in server/freebsd_ref/main.cpp: `multi_bind` to `recvnxtinfo`.
use sctp_conformance.Base.{List, [], ◌∷◌, some, codes}
use sctp_conformance.Feature.{FeatureDefinition, server_observed, hybrid}
use sctp_conformance.Catalog.Makers.{
  make_agent_feature, make_receive_feature, make_send_feature, spec, sized,
}

abbrev pub multi_bind_feature : FeatureDefinition
multi_bind_feature =
    make_receive_feature (codes "multi_bind") (codes "Multihome reference server")
      (codes "multihoming")
      (codes
        "Connect to a multihomed SCTP server contract if the environment supports multiple peer addresses.")
      hybrid 25
      (codes
        "If the client environment supports multihome connect, use all advertised addresses. Otherwise declare the feature unsupported with evidence.")
      (spec (codes "multi-bind-check") 6 61 ∷ []) [] []
      (codes
        "Report whether the client used all advertised server addresses when creating the association.")
      2 0

abbrev pub local_addr_enum_feature : FeatureDefinition
local_addr_enum_feature =
    make_receive_feature (codes "local_addr_enum") (codes "Local address enumeration")
      (codes "multihoming") (codes "Enumerate client local addresses after association setup.")
      hybrid 20
      (codes
        "Connect to the server, send the trigger payload, enumerate the local SCTP addresses in the client environment, then report them.")
      (spec (codes "local-addr-enum") 0 71 ∷ []) [] []
      (codes "Report the local addresses returned by the client environment.") 1 0

abbrev pub peer_addr_enum_feature : FeatureDefinition
peer_addr_enum_feature =
    make_receive_feature (codes "peer_addr_enum") (codes "Peer address enumeration")
      (codes "multihoming") (codes "Enumerate peer SCTP addresses after association setup.") hybrid
      20
      (codes
        "Connect to the server, send the trigger payload, enumerate the peer SCTP addresses in the client environment, then report them.")
      (spec (codes "peer-addr-enum") 0 72 ∷ []) [] []
      (codes "Report the peer addresses returned by the client environment.") 1 0

abbrev pub negative_connect_error_feature : FeatureDefinition
negative_connect_error_feature =
    make_agent_feature (codes "negative_connect_error") (codes "Negative connect path")
      (codes "error_path") (codes "Attempt an invalid SCTP connection and report the failure.") 20
      (codes
        "Attempt to connect to the provided invalid target and report the connect or first-send failure.")
      (codes "Report the error surfaced by the client environment for the invalid SCTP target.") []
      (codes "0.0.0.0:1")

abbrev pub default_sndinfo_recvrcvinfo_feature : FeatureDefinition
default_sndinfo_recvrcvinfo_feature =
    make_receive_feature (codes "default_sndinfo_recvrcvinfo")
      (codes "SCTP_DEFAULT_SNDINFO / RECVRCVINFO") (codes "metadata")
      (codes "Set default sndinfo and confirm the server receives the expected metadata.") hybrid 20
      (codes
        "Set SCTP_DEFAULT_SNDINFO or the environment equivalent, then send the probe payload without overriding stream or PPID per message.")
      (spec (codes "default-sndinfo") 9 901 ∷ []) (codes "SCTP_DEFAULT_SNDINFO" ∷ []) []
      (codes "Report whether setting the default send info succeeded.") 1 0

abbrev pub large_message_reassembly_feature : FeatureDefinition
large_message_reassembly_feature =
    make_receive_feature (codes "large_message_reassembly") (codes "Large message reassembly")
      (codes "fragmentation")
      (codes
        "Send one large SCTP user message and verify the server receives a reassembled message with the original boundary preserved.")
      server_observed 25
      (codes
        "Connect to the server and send one large SCTP message with the specified payload and metadata.")
      (sized (codes "large-reassembly") 24 2401 131072 ∷ []) [] [] ([]) 1 0

abbrev pub maxseg_fragmentation_feature : FeatureDefinition
maxseg_fragmentation_feature =
    record (make_receive_feature (codes "maxseg_fragmentation") (codes "SCTP_MAXSEG fragmentation")
      (codes "fragmentation")
      (codes
        "Limit the outbound SCTP fragment size and verify the server still receives one intact reassembled user message.")
      hybrid 25
      (codes
        "Apply SCTP_MAXSEG or the environment equivalent, connect to the server, send the large probe payload, then report the fragmentation limit attempted.")
      (sized (codes "maxseg-fragmentation") 24 2402 65536 ∷ []) (codes "SCTP_MAXSEG" ∷ []) []
      (codes "Report the SCTP_MAXSEG value attempted and whether the API accepted it.") 1 0) {
        socket_tuning = some (record {
          delayed_sack_delay_ms = 0;
          delayed_sack_freq = 0;
          max_burst = 0;
          maxseg = 1200;
        });
      }

abbrev pub unordered_delivery_feature : FeatureDefinition
unordered_delivery_feature =
    make_receive_feature (codes "unordered_delivery") (codes "Unordered delivery")
      (codes "messaging")
      (codes
        "Send an unordered SCTP message if the client environment exposes the necessary flag or sndinfo field.")
      hybrid 20
      (codes
        "Send the probe payload as an unordered SCTP message if supported, then report whether the environment exposed and accepted unordered delivery controls.")
      (spec (codes "unordered-check") 12 1201 ∷ []) [] []
      (codes
        "Report whether unordered delivery controls were available and whether the send path accepted them.")
      1 0

abbrev pub recvnxtinfo_feature : FeatureDefinition
recvnxtinfo_feature =
    make_send_feature (codes "recvnxtinfo") (codes "SCTP_RECVNXTINFO") (codes "metadata")
      (codes "Receive two server messages and report next-message metadata from the client side.")
      hybrid 20
      (codes
        "Enable SCTP_RECVNXTINFO or the environment equivalent. Connect to the server, send the trigger payload, receive the two server messages, and report the next-message metadata you observed.")
      (codes "recvnxtinfo-ready")
      (spec (codes "nxt-first") 10 1001 ∷ spec (codes "nxt-second") 11 1002 ∷ []) []
      (codes
        "Report the next-message metadata observed by the client while receiving the first message.")

abbrev pub multihoming : List FeatureDefinition
multihoming =
    multi_bind_feature ∷ local_addr_enum_feature ∷ peer_addr_enum_feature
    ∷ negative_connect_error_feature ∷ default_sndinfo_recvrcvinfo_feature
    ∷ large_message_reassembly_feature ∷ maxseg_fragmentation_feature ∷ unordered_delivery_feature
    ∷ recvnxtinfo_feature ∷ []
