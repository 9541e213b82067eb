-- ===== src/Catalog/Associations.antt =====
-- Features of `build_feature_catalog` in server/freebsd_ref/main.cpp: `autoclose` to `stream_reconfig_add_streams`.
use sctp_conformance.Base.{true, List, [], ◌∷◌, some, codes}
use sctp_conformance.Feature.{FeatureDefinition, hybrid, receive_messages_multi_target}
use sctp_conformance.Catalog.Makers.{
  make_agent_feature, make_receive_feature, make_send_feature, spec,
}

abbrev pub autoclose_feature : FeatureDefinition
autoclose_feature =
    make_agent_feature (codes "autoclose") (codes "SCTP_AUTOCLOSE") (codes "socket_option")
      (codes "Attempt to configure SCTP_AUTOCLOSE on the client socket.") 20
      (codes
        "Call SCTP_AUTOCLOSE or the environment equivalent and report whether the option is available and accepted.")
      (codes "Report the AUTOCLOSE value attempted and the outcome.") (codes "SCTP_AUTOCLOSE" ∷ [])
      ([])

abbrev pub bindx_add_remove_feature : FeatureDefinition
bindx_add_remove_feature =
    make_receive_feature (codes "bindx_add_remove") (codes "SCTP_BINDX add/remove")
      (codes "multihoming")
      (codes "Add and remove local SCTP bind addresses on the client before connecting.") hybrid 25
      (codes
        "If the environment exposes SCTP_BINDX or equivalent multihome bind controls, add and remove local addresses as needed, connect to the server, send the probe payload, then report the bindx operations attempted.")
      (spec (codes "bindx-check") 13 1301 ∷ []) [] []
      (codes
        "Report the local addresses added or removed and whether the API accepted the operations.")
      1 0

abbrev pub primary_addr_management_feature : FeatureDefinition
primary_addr_management_feature =
    make_receive_feature (codes "primary_addr_management") (codes "Primary address management")
      (codes "multihoming") (codes "Attempt to set a local primary address for the association.")
      hybrid 25
      (codes
        "Connect to the server, attempt to set the local primary address if the API supports it, send the probe payload, and report the result.")
      (spec (codes "primary-addr-check") 14 1401 ∷ []) [] []
      (codes
        "Report whether the client environment exposed local primary-address management and the result of the call.")
      1 0

abbrev pub peer_primary_addr_request_feature : FeatureDefinition
peer_primary_addr_request_feature =
    make_receive_feature (codes "peer_primary_addr_request") (codes "Peer primary address request")
      (codes "multihoming")
      (codes "Attempt to request a peer primary address change for the association.") hybrid 25
      (codes
        "Connect to the server, attempt to request a peer primary address change if the API supports it, send the probe payload, and report the result.")
      (spec (codes "peer-primary-check") 14 1402 ∷ []) [] []
      (codes
        "Report whether the client environment exposed peer primary-address requests and the result of the call.")
      1 0

abbrev pub peeloff_assoc_feature : FeatureDefinition
peeloff_assoc_feature =
    make_receive_feature (codes "peeloff_assoc") (codes "Association peeloff") (codes "association")
      (codes
        "Peel the association onto a dedicated socket if the client environment supports peeloff.")
      hybrid 20
      (codes
        "Connect to the server, peel off the association to a dedicated socket if supported, send the probe payload on the peeled-off path, and report the result.")
      (spec (codes "peeloff-check") 15 1501 ∷ []) [] []
      (codes "Report whether the association peeloff API was available and whether it succeeded.") 1
      0

abbrev pub assoc_id_listing_feature : FeatureDefinition
assoc_id_listing_feature =
    make_receive_feature (codes "assoc_id_listing") (codes "Association identifier listing")
      (codes "association") (codes "Enumerate association identifiers after connecting.") hybrid 20
      (codes
        "Connect to the server, send the probe payload, enumerate association identifiers if the API supports it, and report the results.")
      (spec (codes "assoc-id-list") 15 1502 ∷ []) [] []
      (codes
        "Report the association identifiers returned by the client environment, or explain why enumeration is unavailable.")
      1 0

abbrev pub assoc_status_opt_info_feature : FeatureDefinition
assoc_status_opt_info_feature =
    make_receive_feature (codes "assoc_status_opt_info") (codes "SCTP_STATUS / opt_info")
      (codes "introspection") (codes "Query association status from the client after connecting.")
      hybrid 20
      (codes
        "Connect to the server, send the probe payload, query association status through sctp_opt_info or an equivalent API, then report the result.")
      (spec (codes "assoc-status") 0 81 ∷ []) [] []
      (codes
        "Report whether association status information was available and summarize the returned state.")
      1 0

abbrev pub one_to_many_multi_assoc_feature : FeatureDefinition
one_to_many_multi_assoc_feature =
    record (make_receive_feature (codes "one_to_many_multi_assoc")
      (codes "One-to-many multi-association socket") (codes "one-to-many")
      (codes
        "Use one SCTP socket to create two associations to two reference-server ports and prove they remain distinct.")
      hybrid 25
      (codes
        "Open one unconnected one-to-many SCTP socket, send each message to the matching connect address, then report the distinct association ids observed on that one socket.")
      (spec (codes "otm-one") 1 101 ∷ spec (codes "otm-two") 2 102 ∷ []) [] []
      (codes
        "Report the two distinct association ids observed on the single one-to-many client socket.")
      1 0) {
        scenario_kind = receive_messages_multi_target;
        one_to_many = some (record {
          expected_associations = 2;
          same_socket_required = true;
          require_distinct_assoc_ids = true;
        });
      }

abbrev pub stream_reconfig_reset_feature : FeatureDefinition
stream_reconfig_reset_feature =
    make_send_feature (codes "stream_reconfig_reset") (codes "Stream reconfiguration reset")
      (codes "reconfiguration")
      (codes "Attempt an SCTP stream reset against the active association.") hybrid 25
      (codes
        "Connect to the server, send the trigger payload, attempt stream reset or the environment equivalent, and report the outcome.")
      (codes "stream-reset-ready") (spec (codes "stream-reset-ack") 16 1601 ∷ []) []
      (codes
        "Report which stream reset operation was attempted and whether the client environment accepted it.")

abbrev pub stream_reconfig_add_streams_feature : FeatureDefinition
stream_reconfig_add_streams_feature =
    make_send_feature (codes "stream_reconfig_add_streams")
      (codes "Stream reconfiguration add streams") (codes "reconfiguration")
      (codes "Attempt to add outbound or inbound streams on the active association.") hybrid 25
      (codes
        "Connect to the server, send the trigger payload, attempt to add streams through the environment's SCTP reconfiguration API, and report the outcome.")
      (codes "stream-add-ready") (spec (codes "stream-add-ack") 16 1602 ∷ []) []
      (codes
        "Report the requested stream changes and whether the client environment accepted them.")

abbrev pub associations : List FeatureDefinition
associations =
    autoclose_feature ∷ bindx_add_remove_feature ∷ primary_addr_management_feature
    ∷ peer_primary_addr_request_feature ∷ peeloff_assoc_feature ∷ assoc_id_listing_feature
    ∷ assoc_status_opt_info_feature ∷ one_to_many_multi_assoc_feature
    ∷ stream_reconfig_reset_feature ∷ stream_reconfig_add_streams_feature ∷ []
