-- ===== src/Tests/Exchange.antt =====
-- The helper's client and the server's worker on one message.
use sctp_conformance.Base.{
  false, ◌≡◌, ◌<◌, refl, arith, List, [], ◌∷◌, some, codes, All, length, map, decimal,
}
use sctp_conformance.Text.{join, join_from, trim_start, is_space}
use sctp_conformance.Options.{digits_value, strtoul}
use sctp_conformance.Payload.{materialize_payload}
use sctp_conformance.Worker.{Received, message, notification, completes, receive_loop}
use sctp_conformance.Worker.Delivery.{wanted}
use sctp_conformance.Helper.{Options}
use sctp_conformance.Helper.Args.{no_options}
use sctp_conformance.Helper.Parse.{
  split_csv, strtok_loop, strchr, strrchr, strtol, parse_addr, parse_addrs, parse_addr_list,
  parse_message, message_specs, parse_messages,
}
use sctp_conformance.Helper.Endpoints.{
  with_addrs, apply_common_socket_options, has_initmsg, apply_subscriptions, expects, expects_only,
  emit_loaded,
}
use sctp_conformance.Helper.Client.{
  run_client, connect_client, on_association, send_messages, client_messages, send_loop,
}
use sctp_conformance.Helper.Reports.{events_of}
use sctp_conformance.Helper.Messages.{Fits, messages_text}
use sctp_conformance.Helper.Exchange.{to_send, sent_contents, client_completes_worker}
use sctp_conformance.Tests.Data.{platform, spec, hello}
use sctp_conformance.Tests.Helper.{libc, calls}

abbrev opts : Options
opts = record (no_options (codes "client")) {
  connect_addrs = some (codes "127.0.0.1:9000");
  messages = some (messages_text (map to_send (spec ∷ [])));
}

abbrev heard : List Received
heard = notification ∷ message hello ∷ []

fits : All Fits (map to_send (spec ∷ []))
unfolding materialize_payload
fits = ground arith

short : length (messages_text (map to_send (spec ∷ []))) < 512
unfolding join join_from decimal materialize_payload
short = omega arith

client_completes_worker_example :
    (sent_contents (events_of (run_client libc calls opts)) ≡ wanted (spec ∷ []))
    × (receive_loop platform (codes "f") (λ _. []) 0 false (spec ∷ []) heard ≡ completes)
unfolding run_client with_addrs parse_addr_list parse_addrs parse_addr split_csv strtok_loop strrchr
    strtol trim_start is_space digits_value connect_client apply_common_socket_options has_initmsg
    apply_subscriptions on_association expects_only emit_loaded send_messages client_messages
    parse_messages message_specs parse_message strchr strtoul send_loop expects join join_from
    decimal materialize_payload
client_completes_worker_example =
    client_completes_worker libc calls opts platform (codes "f") (λ _. []) (spec ∷ []) heard refl
      refl fits (omega arith) short refl ([], refl)
