-- ===== src/Payload/Fill.antt =====
-- The loop of `materialize_payload` and the size asked for.
use sctp_conformance.Base.{
  length-take, ℕ, zero, suc, ◌-◌, ◌≤◌, ◌<◌, ◌≡◌, [], arith, leb, if◌then◌else◌, Bytes, length, take,
  length-append, length-replicate,
}
use sctp_conformance.Feature.{MessageSpec}
use sctp_conformance.Payload.{append_chunk, fill, materialize_payload}

-- A round adds a byte at least, and never writes past the size.
append_chunk_grows :
    (payload : Bytes) (size : ℕ) (out : Bytes)
    → 0 < length payload
    → length out < size
    → (length out < length (append_chunk payload size out))
      × (length (append_chunk payload size out) ≤ size)
unfolding append_chunk
append_chunk_grows payload size out h lt = ground (
  arith,
  length-append out payload,
  length-append out (take (size - length out) payload),
  length-take (size - length out) payload,
)

length-fill :
    (fuel : ℕ) (payload : Bytes) (size : ℕ) (out : Bytes)
    → 0 < length payload
    → length out ≤ size
    → size - length out ≤ fuel
    → length (fill fuel payload size out) ≡ size
unfolding fill
length-fill zero payload size out h le f = omega arith
length-fill (suc fuel) payload size out h le f = ground (
  arith,
  append_chunk_grows payload size out,
  length-fill fuel payload size (append_chunk payload size out),
)

-- The payload as sent has `size_bytes` bytes where that is larger than the payload, and the length
-- of the payload otherwise.
pub length-materialize_payload :
    (m : MessageSpec)
    → length (materialize_payload m)
      ≡ (if leb m.size_bytes (length m.payload) then length m.payload else m.size_bytes)
unfolding materialize_payload
length-materialize_payload m = ground (
  arith,
  length-replicate {A = ℕ} m.size_bytes b'x',
  length-fill m.size_bytes m.payload m.size_bytes [],
)
