-- ===== src/Tests/Helper.antt =====
-- Runs of the adapter's helper.
use sctp_conformance.Base.{
  ◌≡◌, ◌≤◌, ◌<◌, refl, arith, true, ◌&&◌, List, [], ◌∷◌, none, some, Bytes, codes, All, length,
  decimal, bytes_eq,
}
use sctp_conformance.Base.Int.{pos, is_nonneg}
use sctp_conformance.Text.{trim_start, is_space, join, join_from}
use sctp_conformance.Options.{digits_value}
use sctp_conformance.Worker.{c_string}
use sctp_conformance.Helper.{
  MessageSpec, Options, Libc, Calls, Received, recv_error, notification, message, connected, ready,
  recv, notify, complete, exited,
}
use sctp_conformance.Helper.Lines.{escape_chars, escape_char}
use sctp_conformance.Helper.Parse.{
  split_csv, strtok_loop, strchr, strrchr, strtol, parse_message, message_specs, parse_messages,
  parse_addr, parse_addrs, parse_addr_list,
}
use sctp_conformance.Helper.Args.{
  no_options, parse_options, options_loop, has_value, store_value, store_flag, atoi,
}
use sctp_conformance.Helper.Main.{main, run_mode, report}
use sctp_conformance.Helper.Server.{
  receive_loop, run_server, bind_server, bind_rest, serve, ready_addrs, set_ports,
}
use sctp_conformance.Helper.Client.{client_messages}
use sctp_conformance.Helper.Endpoints.{
  with_addrs, apply_common_socket_options, has_initmsg, apply_subscriptions, load_addrs, format_all,
  format_sockaddr, emit_loaded,
}
use sctp_conformance.Helper.Closing.{asks, Closes, main-Closes}
use sctp_conformance.Helper.Exit.{succeeds}
use sctp_conformance.Helper.Reports.{recv_lines, events_of, receive_loop_reports}
use sctp_conformance.Helper.Messages.{Fits, messages_text, client_messages-messages_text}
use sctp_conformance.Helper.Bounds.{IsBounded, parse_messages-IsBounded}

abbrev pub libc : Libc
libc = record {
  inet_pton = λ _. some 2130706433;
  inet_ntop = λ _. some (codes "127.0.0.1");
  strerror = λ _. codes "error";
}

abbrev trace : List Received
trace = notification 1 8192 ∷ message (codes "hello") 1 7 3 ∷ recv_error ∷ []

-- A kernel that takes everything.
abbrev pub calls : Calls
calls = record {
  socket = pos 5;
  nodelay = true;
  init = λ _. true;
  events = λ _. true;
  recvrcvinfo = true;
  bind = λ _. true;
  bind_port = some 9000;
  bindx = λ _. true;
  listen = true;
  future_laddrs = [];
  local_port = some 9000;
  getladdrs = λ _. [];
  getpaddrs = λ _. [];
  connectx = λ _. connected 3;
  recvv = trace;
  sendv = none ∷ [];
  garbage = record { sin_addr = 0; sin_port = 0 };
  last_errno = 0;
}

abbrev server_args : List Bytes
server_args =
    codes "server"
    ∷ codes "--bind-addrs"
    ∷ codes "127.0.0.1:0"
    ∷ codes "--read-messages"
    ∷ codes "1"
    ∷ []

main-Closes_example :
    Closes
      (asks libc server_args && is_nonneg calls.socket)
      calls.socket
      (main libc calls server_args)
main-Closes_example = main-Closes libc calls server_args

abbrev opts : Options
opts = record (no_options (codes "client")) {
  connect_addrs = some (codes "127.0.0.1:9000");
  messages = some (codes "hello:1:7");
  read_messages = pos 1;
}

receive_loop_reports_example :
    (recv_lines (events_of (receive_loop libc calls opts 0 trace))
      ≡ recv (codes "hello") 1 7 3 ∷ [])
    × (succeeds (receive_loop libc calls opts 0 trace) ≡ true)
unfolding c_string
receive_loop_reports_example = receive_loop_reports libc calls opts trace

abbrev hello : MessageSpec
hello = record { payload = codes "hi"; stream = 1; ppid = 7 }

hello-Fits : Fits hello
hello-Fits = ground arith

short : length (messages_text (hello ∷ hello ∷ [])) < 512
unfolding join join_from decimal
short = omega arith

client_messages-messages_text_example :
    client_messages libc calls
      (record opts { messages = some (messages_text (hello ∷ hello ∷ [])) })
    ≡ some (hello ∷ hello ∷ [])
client_messages-messages_text_example =
    client_messages-messages_text libc calls opts (hello ∷ hello ∷ [])
      (hello-Fits, (hello-Fits, tt)) (omega arith) short

parse_messages-IsBounded_example : (length (hello ∷ []) ≤ 16) × All IsBounded (hello ∷ [])
unfolding parse_messages message_specs parse_message split_csv strtok_loop strchr
parse_messages-IsBounded_example = parse_messages-IsBounded (codes "hi:1:7") (hello ∷ []) refl

-- A control byte is printed as it is, which JSON does not allow in a string.
control_byte : escape_chars (1 ∷ []) ≡ 1 ∷ []
unfolding escape_chars escape_char
control_byte = refl

-- An empty list of addresses is accepted, and entry 0 of the array is bound unset.
no_address : parse_addr_list libc [] ≡ some []
unfolding parse_addr_list parse_addrs split_csv strtok_loop
no_address = refl

-- `server --bind-addrs 127.0.0.1:0 --read-messages 1` on one notification and one message.
server_run :
    main libc calls server_args
    ≡ exited
        (ready (codes "127.0.0.1:9000" ∷ [])
          ∷ notify 1 8192
          ∷ recv (codes "hello") 1 7 3
          ∷ complete 1 (codes "recv_count")
          ∷ [])
        (pos 5 ∷ [])
        0
unfolding main parse_options options_loop has_value store_value store_flag bytes_eq atoi strtol
    digits_value trim_start is_space run_mode run_server with_addrs parse_addr_list parse_addrs
    parse_addr split_csv strtok_loop strrchr bind_server apply_common_socket_options has_initmsg
    apply_subscriptions bind_rest serve ready_addrs load_addrs set_ports format_all format_sockaddr
    decimal receive_loop c_string emit_loaded report
server_run = refl
