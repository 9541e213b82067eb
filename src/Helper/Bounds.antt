-- ===== src/Helper/Bounds.antt =====
-- The arrays of adapters/freebsd_c/helper.c that `parse_messages` and `parse_addr_list` fill.
use sctp_conformance.Base.{
  ℕ, zero, suc, ◌^◌, ◌≤◌, ◌<◌, ◌≡◌, refl, arith, List, [], ◌∷◌, some, Option-cases, inl, inr, Bytes,
  All, length, take,
}
use sctp_conformance.Helper.{MessageSpec}
use sctp_conformance.Helper.Parse.{strchr, parse_message, message_specs, parse_messages, split_csv}

-- The payload has room for its NUL, and the numbers are in their types.
abbrev pub IsBounded : MessageSpec → Type 0
IsBounded m = (length m.payload < 256) × (m.stream < 2 ^ 16) × (m.ppid < 2 ^ 32)

length-take_bound : (n : ℕ) (xs : Bytes) → length (take n xs) ≤ n
length-take_bound zero xs = omega arith
length-take_bound (suc n) [] = omega arith
length-take_bound (suc n) (x ∷ xs) = omega (arith, length-take_bound n xs)

parse_message-IsBounded :
    (spec : Bytes) (m : MessageSpec) → parse_message spec ≡ some m → IsBounded m
unfolding parse_message
parse_message-IsBounded spec m h = elim (Option-cases (strchr b':' spec)) [
  | inl lost ↦ absurd (ground arith)
  | inr (p, there) ↦ elim (Option-cases (strchr b':' p.1)) [
    | inl lost ↦ absurd (ground arith)
    | inr (q, here) ↦ ground (arith, length-take_bound 255 p.0)
  ]
]

message_specs-IsBounded :
    (parts : List Bytes) (ms : List MessageSpec)
    → message_specs parts ≡ some ms
    → All IsBounded ms × (length ms ≡ length parts)
unfolding message_specs
message_specs-IsBounded [] [] h = (tt, refl)
message_specs-IsBounded [] (m ∷ ms) h = absurd (ground arith)
message_specs-IsBounded (part ∷ parts) ms h = elim (Option-cases (parse_message part)) [
  | inl lost ↦ absurd (ground arith)
  | inr (m, there) ↦ elim (Option-cases (message_specs parts)) [
    | inl lost ↦ absurd (ground arith)
    | inr (rest, here) ↦
        ground
          (arith, parse_message-IsBounded part m there, message_specs-IsBounded parts rest here)
  ]
]

-- Whatever text it is given, `parse_messages` fills at most the 16 entries of its array, and no
-- entry past its payload of 255 bytes and the NUL.
pub parse_messages-IsBounded :
    (raw : Bytes) (ms : List MessageSpec)
    → parse_messages raw ≡ some ms
    → (length ms ≤ 16) × All IsBounded ms
unfolding parse_messages
parse_messages-IsBounded raw ms h = ground (arith, message_specs-IsBounded (split_csv raw) ms)
