-- ===== src/Payload.antt =====
-- `materialize_payload` of server/freebsd_ref/main.cpp: a short payload is repeated up to
-- `size_bytes`. The loop takes `size_bytes` as fuel; a round writes a byte at least.
pub mod Fill
use sctp_conformance.Base.{
  ℕ, zero, suc, ◌-◌, ◌||◌, [], ◌++◌, ltb, leb, ◌==◌, if◌then◌else◌, Bytes, length, take, replicate,
  is_empty,
}
use sctp_conformance.Feature.{MessageSpec}

-- One round of the loop.
unfoldable pub append_chunk : Bytes → ℕ → Bytes → Bytes
append_chunk payload size out =
    let remaining = size - length out in
    out ++ (if leb (length payload) remaining then payload else take remaining payload)

unfoldable pub fill : ℕ → Bytes → ℕ → Bytes → Bytes
unfolding append_chunk
fill zero payload size out = out
fill (suc fuel) payload size out =
    let rest = fill fuel payload size (append_chunk payload size out) in
    if ltb (length out) size then rest else out

unfoldable pub materialize_payload : MessageSpec → Bytes
unfolding fill
materialize_payload message =
    let size = message.size_bytes in
    if size == 0 || leb size (length message.payload)
    then message.payload
    else if is_empty message.payload
    then replicate size b'x'
    else fill size message.payload size []
