-- ===== src/Catalog/Events.antt =====
-- Features of `build_feature_catalog` in server/freebsd_ref/main.cpp: `delayed_sack_tuning` to `partial_delivery_event`.
use sctp_conformance.Base.{true, List, [], ◌∷◌, some, codes}
use sctp_conformance.Feature.{FeatureDefinition, hybrid}
use sctp_conformance.Catalog.Makers.{make_receive_feature, make_send_feature, spec, sized}

abbrev pub delayed_sack_tuning_feature : FeatureDefinition
delayed_sack_tuning_feature =
    record (make_receive_feature (codes "delayed_sack_tuning") (codes "SCTP_DELAYED_SACK")
      (codes "socket_option")
      (codes
        "Configure delayed SACK behavior on the active association before sending the probe payload.")
      hybrid 20
      (codes
        "Apply SCTP_DELAYED_SACK or the environment equivalent, connect to the server, send the probe payload, then report the delayed-SACK values attempted.")
      (spec (codes "delayed-sack-check") 4 43 ∷ []) (codes "SCTP_DELAYED_SACK" ∷ []) []
      (codes
        "Report the delayed-SACK timer and frequency attempted and whether the API accepted them.")
      1 0) {
        socket_tuning = some (record {
          delayed_sack_delay_ms = 200;
          delayed_sack_freq = 2;
          max_burst = 0;
          maxseg = 0;
        });
      }

abbrev pub max_burst_tuning_feature : FeatureDefinition
max_burst_tuning_feature =
    record (make_receive_feature (codes "max_burst_tuning") (codes "SCTP_MAX_BURST")
      (codes "socket_option")
      (codes "Configure maximum burst on the active association before sending the probe payload.")
      hybrid 20
      (codes
        "Apply SCTP_MAX_BURST or the environment equivalent, connect to the server, send the probe payload, then report the value attempted.")
      (spec (codes "max-burst-check") 4 44 ∷ []) (codes "SCTP_MAX_BURST" ∷ []) []
      (codes "Report the maximum-burst value attempted and whether the API accepted it.") 1 0) {
        socket_tuning = some (record {
          delayed_sack_delay_ms = 0;
          delayed_sack_freq = 0;
          max_burst = 2;
          maxseg = 0;
        });
      }

abbrev pub notifications_feature : FeatureDefinition
notifications_feature =
    make_send_feature (codes "notifications") (codes "Association and shutdown notifications")
      (codes "events")
      (codes "Subscribe to SCTP notifications and report what the client observed.") hybrid 20
      (codes
        "Subscribe to association, shutdown, and data I/O notifications. Connect to the server, send the trigger payload, read the server message, close gracefully, then report the notifications you observed.")
      (codes "notifications-ready") (spec (codes "server-notify") 5 51 ∷ [])
      (codes "association" ∷ codes "shutdown" ∷ codes "dataio" ∷ [])
      (codes
        "Report the notification types observed by the client, including association and shutdown events.")

abbrev pub event_subscription_matrix_feature : FeatureDefinition
event_subscription_matrix_feature =
    make_send_feature (codes "event_subscription_matrix") (codes "Event subscription matrix")
      (codes "events")
      (codes
        "Subscribe to the SCTP event set exposed by the client environment and report which notifications are surfaced.")
      hybrid 20
      (codes
        "Subscribe to the available SCTP events, connect to the server, send the trigger payload, receive the server message, and report the exact notifications observed.")
      (codes "event-matrix-ready") (spec (codes "server-event-matrix") 5 52 ∷ [])
      (codes "association" ∷ codes "shutdown" ∷ codes "dataio" ∷ [])
      (codes
        "Report which SCTP notifications were available and which were delivered during the scenario.")

abbrev pub association_shutdown_notifications_feature : FeatureDefinition
association_shutdown_notifications_feature =
    make_send_feature (codes "association_shutdown_notifications")
      (codes "Association shutdown notifications") (codes "events")
      (codes "Observe graceful association teardown notifications.") hybrid 20
      (codes
        "Subscribe to association and shutdown events, connect to the server, send the trigger payload, receive the server message, close the association cleanly, and report the shutdown-related notifications observed.")
      (codes "shutdown-notify-ready") (spec (codes "server-shutdown-notify") 5 53 ∷ [])
      (codes "association" ∷ codes "shutdown" ∷ [])
      (codes "Report the association-change and shutdown notifications observed by the client.")

abbrev pub peer_addr_change_notifications_feature : FeatureDefinition
peer_addr_change_notifications_feature =
    record (make_send_feature (codes "peer_addr_change_notifications")
      (codes "Peer address change notifications") (codes "path-management")
      (codes
        "Observe peer-address-change notifications while establishing and using a multihomed association.")
      hybrid 25
      (codes
        "Subscribe to address and association notifications, connect to the multihomed reference server, send the trigger payload, receive the server message, and report the peer-address notifications observed.")
      (codes "peer-addr-change-ready") (spec (codes "server-peer-addr-change") 14 1401 ∷ [])
      (codes "association" ∷ codes "address" ∷ codes "dataio" ∷ [])
      (codes
        "Report the SCTP_PEER_ADDR_CHANGE notifications observed by the client during association setup or early traffic.")) {
          bind_address_count = 2;
          manual_setup_required = true;
          manual_setup_instructions =
              (codes
                  "After the association is established, induce a real path-state transition on one advertised server address before rerunning this feature."
                ∷ codes
                    "Example: temporarily block SCTP traffic to one server address or withdraw one advertised path so the client can observe SCTP_PEER_ADDR_CHANGE."
                ∷ []);
        }

abbrev pub partial_delivery_event_feature : FeatureDefinition
partial_delivery_event_feature =
    record (make_send_feature (codes "partial_delivery_event") (codes "Partial delivery event")
      (codes "notifications")
      (codes
        "Receive a very large SCTP user message and observe partial-delivery notifications while it is surfaced to the application.")
      hybrid 25
      (codes
        "Subscribe to partial-delivery notifications, connect to the server, send the trigger payload, receive the large server message, and report whether SCTP_PARTIAL_DELIVERY_EVENT was observed.")
      (codes "partial-delivery-ready") (sized (codes "partial-delivery") 25 2501 1048576 ∷ [])
      (codes "partial_delivery" ∷ codes "dataio" ∷ [])
      (codes
        "Report whether SCTP_PARTIAL_DELIVERY_EVENT was observed while the large message was delivered.")) {
          manual_setup_required = true;
          manual_setup_instructions =
              (codes
                  "Tune the client host so very large inbound SCTP messages trigger partial delivery before rerunning this feature."
                ∷ codes
                    "Example: reduce the effective SCTP receive buffer / partial-delivery threshold on the client host, then rerun with --include-manual-setup."
                ∷ []);
        }

abbrev pub events : List FeatureDefinition
events =
    delayed_sack_tuning_feature ∷ max_burst_tuning_feature ∷ notifications_feature
    ∷ event_subscription_matrix_feature ∷ association_shutdown_notifications_feature
    ∷ peer_addr_change_notifications_feature ∷ partial_delivery_event_feature ∷ []
