-- ===== src/Helper/Lines.antt =====
-- `json_escape` and the `emit_...` functions of adapters/freebsd_c/helper.c, as the text that each
-- writes to the standard output.
use sctp_conformance.Base.{
  ℕ, Bool, true, false, ◌||◌, List, [], ◌∷◌, ◌++◌, ◌==◌, if◌then◌else◌, Bytes, codes, decimal,
}
use sctp_conformance.Helper.{
  Event, ready, addrs, recv, sent, notify, expected_failure, complete, error,
}

-- The `switch` of `json_escape`.
unfoldable pub escape_char : ℕ → Bytes
escape_char p =
    if p == b'\\' || p == b'"'
    then b'\\' ∷ p ∷ []
    else if p == b'\n'
    then b'\\' ∷ b'n' ∷ []
    else if p == b'\r'
    then b'\\' ∷ b'r' ∷ []
    else if p == b'\t'
    then b'\\' ∷ b't' ∷ []
    else p ∷ []

-- The loop of `json_escape`.
unfoldable pub escape_chars : Bytes → Bytes
unfolding escape_char
escape_chars [] = []
escape_chars (p ∷ rest) = escape_char p ++ escape_chars rest

unfoldable pub json_escape : Bytes → Bytes
unfolding escape_chars
json_escape value = b'"' ∷ (escape_chars value ++ b'"' ∷ [])

-- The loop of `emit_ready` and `emit_addrs`.
unfoldable pub addrs_from : Bool → List Bytes → Bytes
unfolding json_escape
addrs_from first [] = []
addrs_from first (a ∷ rest) =
    (if first then [] else codes ",") ++ (json_escape a ++ addrs_from false rest)

unfoldable pub emit_ready : List Bytes → Bytes
unfolding addrs_from
emit_ready list =
    codes "{\"event\":\"ready\",\"local_addrs\":[" ++ (addrs_from true list ++ codes "]}\n")

unfoldable pub emit_addrs : Bytes → List Bytes → Bytes
unfolding addrs_from json_escape
emit_addrs event list =
    codes "{\"event\":"
    ++ (json_escape event ++ (codes ",\"addrs\":[" ++ (addrs_from true list ++ codes "]}\n")))

unfoldable pub emit_recv : Bytes → ℕ → ℕ → ℕ → Bytes
unfolding json_escape decimal
emit_recv payload stream ppid assoc_id =
    codes "{\"event\":\"recv\",\"payload\":"
    ++ (json_escape payload
        ++ (codes ",\"stream\":"
            ++ (decimal stream
                ++ (codes ",\"ppid\":"
                    ++ (decimal ppid
                        ++ (codes ",\"assoc_id\":" ++ (decimal assoc_id ++ codes "}\n")))))))

unfoldable pub emit_sent : Bytes → ℕ → ℕ → Bytes
unfolding json_escape decimal
emit_sent payload stream ppid =
    codes "{\"event\":\"sent\",\"payload\":"
    ++ (json_escape payload
        ++ (codes ",\"stream\":"
            ++ (decimal stream ++ (codes ",\"ppid\":" ++ (decimal ppid ++ codes "}\n")))))

unfoldable pub emit_notify : ℕ → ℕ → Bytes
unfolding decimal
emit_notify type flags =
    codes "{\"event\":\"notify\",\"type\":"
    ++ (decimal type ++ (codes ",\"flags\":" ++ (decimal flags ++ codes "}\n")))

unfoldable pub emit_expected_failure : Bytes → Bytes → Bytes
unfolding json_escape
emit_expected_failure stage text =
    codes "{\"event\":\"expected_failure\",\"stage\":"
    ++ (json_escape stage ++ (codes ",\"message\":" ++ (json_escape text ++ codes "}\n")))

unfoldable pub emit_complete : ℕ → Bytes → Bytes
unfolding decimal
emit_complete count field =
    codes "{\"event\":\"complete\",\"" ++ (field ++ (codes "\":" ++ (decimal count ++ codes "}\n")))

unfoldable pub emit_error : Bytes → Bytes
unfolding json_escape
emit_error text = codes "{\"event\":\"error\",\"message\":" ++ (json_escape text ++ codes "}\n")

-- What the call writes.
unfoldable pub line : Event → Bytes
unfolding emit_ready emit_addrs emit_recv emit_sent emit_notify emit_expected_failure emit_complete
    emit_error
line (ready list) = emit_ready list
line (addrs event list) = emit_addrs event list
line (recv payload stream ppid assoc_id) = emit_recv payload stream ppid assoc_id
line (sent payload stream ppid) = emit_sent payload stream ppid
line (notify type flags) = emit_notify type flags
line (expected_failure stage text) = emit_expected_failure stage text
line (complete count field) = emit_complete count field
line (error text) = emit_error text
