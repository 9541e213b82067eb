-- ===== src/Tests/Workers.antt =====
-- Runs of the workers, of a listening socket, and of the JSON reader.
use sctp_conformance.Base.{
  ℕ, ◌≡◌, ◌≢◌, ◌↔◌, ◌++◌, refl, true, false, List, [], ◌∷◌, some, Bytes, codes, length,
}
use sctp_conformance.Base.Int.{pos}
use sctp_conformance.Text.{json_quote}
use sctp_conformance.Json.Value.{parsed}
use sctp_conformance.Json.Strings.{parse_json_string_value}
use sctp_conformance.Json.Parser.{root_fuel, parse_json_object_value}
use sctp_conformance.Json.RoundTrip.{parse_json_string_value-json_quote}
use sctp_conformance.Json.Shrinks.{Shrinks}
use sctp_conformance.Json.Total.{parse_json_object_value-Shrinks}
use sctp_conformance.Payload.{materialize_payload}
use sctp_conformance.Socket.{create_listening_socket, KernelAnswers}
use sctp_conformance.Socket.Leaks.{enough, Keeps, create_listening_socket-Keeps}
use sctp_conformance.Worker.{
  Received, notification, message, recv_error, completes, is_timeout, receive_loop,
  run_receive_multi_target, run_pr_receive,
}
use sctp_conformance.Worker.Delivery.{
  StartsWith, wanted, delivered, FirstsAre, receive_loop_completes_iff,
  run_receive_multi_target_completes_iff,
}
use sctp_conformance.Worker.Partial.{payloads, ends_in, OnlyFinal, run_pr_receive_completes_iff}
use sctp_conformance.Tests.Data.{platform, options, kernel, spec, last_spec, hello, bye}

abbrev trace : List Received
trace = notification ∷ message hello ∷ message bye ∷ []

receive_loop_completes_iff_example :
    (receive_loop platform (codes "f") (λ _. []) 0 false (spec ∷ last_spec ∷ []) trace ≡ completes)
    ↔ StartsWith (wanted (spec ∷ last_spec ∷ [])) (delivered trace)
receive_loop_completes_iff_example =
    receive_loop_completes_iff platform (codes "f") (λ _. []) 0 trace (spec ∷ last_spec ∷ []) refl

abbrev traces : List (List Received)
traces = (message hello ∷ []) ∷ (notification ∷ message bye ∷ []) ∷ []

run_receive_multi_target_completes_iff_example :
    (run_receive_multi_target platform
        (codes "f")
        (pos 5 ∷ pos 6 ∷ [])
        (spec ∷ last_spec ∷ [])
        traces
      ≡ completes)
    ↔ ((length (pos 5 ∷ pos 6 ∷ []) ≡ length (spec ∷ last_spec ∷ []))
        × FirstsAre platform (codes "f") (spec ∷ last_spec ∷ []) traces)
run_receive_multi_target_completes_iff_example =
    run_receive_multi_target_completes_iff platform (codes "f") (pos 5 ∷ pos 6 ∷ [])
      (spec ∷ last_spec ∷ []) traces

abbrev partial : List Received
partial = message bye ∷ recv_error 35 ∷ []

run_pr_receive_completes_iff_example :
    (run_pr_receive platform (spec ∷ last_spec ∷ []) partial ≡ completes) ↔ (
      (payloads partial ≢ [])
      × OnlyFinal (materialize_payload spec) (materialize_payload last_spec) (payloads partial)
      × ((e : ℕ) × (ends_in partial ≡ some e) × (is_timeout platform e ≡ true)))
run_pr_receive_completes_iff_example =
    run_pr_receive_completes_iff platform spec last_spec [] partial

-- `bind` fails behind the opening of descriptor 5.
abbrev unbound : KernelAnswers
unbound = record kernel { bind = some 49 }

create_listening_socket-Keeps_example :
    Keeps (enough options 1) 1 unbound (create_listening_socket platform options 1 unbound)
create_listening_socket-Keeps_example = create_listening_socket-Keeps platform options 1 unbound

parse_json_string_value-json_quote_example :
    parse_json_string_value (json_quote (codes "a\n\"b\\") ++ codes ",1")
    ≡ parsed (codes "a\n\"b\\") (codes ",1")
parse_json_string_value-json_quote_example =
    parse_json_string_value-json_quote (codes "a\n\"b\\") (codes ",1")

abbrev body : Bytes
body = codes "{\"assoc_ids\":[\"1\",\"2\"]}"

parse_json_object_value-Shrinks_example :
    Shrinks (length body) (parse_json_object_value (root_fuel body) body)
parse_json_object_value-Shrinks_example = parse_json_object_value-Shrinks body
