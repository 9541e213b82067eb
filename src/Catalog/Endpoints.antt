-- ===== src/Catalog/Endpoints.antt =====
-- Features of `build_feature_catalog` in server/freebsd_ref/main.cpp: `socket_create` to `rto_assoc_parameters`.
use sctp_conformance.Base.{List, [], ◌∷◌, codes}
use sctp_conformance.Feature.{FeatureDefinition, server_observed, hybrid}
use sctp_conformance.Catalog.Makers.{make_agent_feature, make_receive_feature, spec}

abbrev pub socket_create_feature : FeatureDefinition
socket_create_feature =
    make_agent_feature (codes "socket_create") (codes "Create SCTP socket") (codes "endpoint")
      (codes "Verify the client environment can create an SCTP socket.") 20
      (codes "Create an SCTP socket in the client environment and report whether it succeeds.")
      (codes
        "Report whether socket(AF_INET, SOCK_SEQPACKET, IPPROTO_SCTP) or the environment equivalent succeeded.")
      [] ([])

abbrev pub bind_listen_connect_feature : FeatureDefinition
bind_listen_connect_feature =
    make_receive_feature (codes "bind_listen_connect") (codes "Bind, listen, and connect")
      (codes "association")
      (codes "Establish a basic SCTP association against the reference server.") server_observed 20
      (codes "Connect to the server and send the exact probe payload once the association is up.")
      (spec (codes "bind-listen-connect") 0 1 ∷ []) [] [] ([]) 1 0

abbrev pub single_message_boundary_feature : FeatureDefinition
single_message_boundary_feature =
    make_receive_feature (codes "single_message_boundary") (codes "Single message boundary")
      (codes "messaging") (codes "Send one SCTP message and preserve its boundary.") server_observed
      20
      (codes "Connect to the server and send exactly one SCTP message with the specified payload.")
      (spec (codes "single-boundary") 1 11 ∷ []) [] [] ([]) 1 0

abbrev pub multi_message_boundary_feature : FeatureDefinition
multi_message_boundary_feature =
    make_receive_feature (codes "multi_message_boundary") (codes "Multiple message boundaries")
      (codes "messaging") (codes "Send two SCTP messages and preserve ordering and boundaries.")
      server_observed 20
      (codes "Connect to the server and send the two messages in order as distinct SCTP messages.")
      (spec (codes "alpha") 1 100 ∷ spec (codes "beta") 1 101 ∷ []) [] [] ([]) 1 0

abbrev pub stream_id_feature : FeatureDefinition
stream_id_feature =
    make_receive_feature (codes "stream_id") (codes "Stream identifier metadata") (codes "metadata")
      (codes "Deliver a message with a specific SCTP stream id.") server_observed 20
      (codes "Connect to the server and send the message on the requested SCTP stream.")
      (spec (codes "stream-check") 7 21 ∷ []) [] [] ([]) 1 0

abbrev pub ppid_feature : FeatureDefinition
ppid_feature =
    make_receive_feature (codes "ppid") (codes "PPID metadata") (codes "metadata")
      (codes "Deliver a message with a specific SCTP PPID.") server_observed 20
      (codes "Connect to the server and send the message with the requested SCTP PPID.")
      (spec (codes "ppid-check") 2 424242 ∷ []) [] [] ([]) 1 0

abbrev pub nodelay_feature : FeatureDefinition
nodelay_feature =
    make_receive_feature (codes "nodelay") (codes "SCTP_NODELAY") (codes "socket_option")
      (codes "Set SCTP_NODELAY before sending data.") hybrid 20
      (codes
        "Set SCTP_NODELAY on the client socket, connect to the server, send the probe payload, then report the local API result.")
      (spec (codes "nodelay-check") 3 31 ∷ []) (codes "SCTP_NODELAY" ∷ []) []
      (codes "Report whether setting SCTP_NODELAY succeeded in the client environment.") 1 0

abbrev pub initmsg_feature : FeatureDefinition
initmsg_feature =
    make_receive_feature (codes "initmsg") (codes "SCTP_INITMSG") (codes "socket_option")
      (codes "Configure SCTP_INITMSG before association setup.") hybrid 20
      (codes
        "Configure SCTP_INITMSG or the environment equivalent before connecting, send the probe payload, then report the local API result.")
      (spec (codes "initmsg-check") 4 41 ∷ []) (codes "SCTP_INITMSG" ∷ []) []
      (codes "Report the INITMSG values you attempted and whether the call succeeded.") 1 0

abbrev pub rto_assoc_parameters_feature : FeatureDefinition
rto_assoc_parameters_feature =
    make_receive_feature (codes "rto_assoc_parameters") (codes "SCTP_RTOINFO")
      (codes "socket_option")
      (codes
        "Configure association RTO parameters before or after association setup, depending on the client API surface.")
      hybrid 20
      (codes
        "Configure SCTP_RTOINFO or the environment equivalent, connect to the server, send the probe payload, then report the RTO values you applied.")
      (spec (codes "rtoinfo-check") 4 42 ∷ []) (codes "SCTP_RTOINFO" ∷ []) []
      (codes "Report the RTO parameter values attempted and whether the API accepted them.") 1 0

abbrev pub endpoints : List FeatureDefinition
endpoints =
    socket_create_feature ∷ bind_listen_connect_feature ∷ single_message_boundary_feature
    ∷ multi_message_boundary_feature ∷ stream_id_feature ∷ ppid_feature ∷ nodelay_feature
    ∷ initmsg_feature ∷ rto_assoc_parameters_feature ∷ []
