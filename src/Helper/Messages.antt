-- ===== src/Helper/Messages.antt =====
-- `parse_messages` of adapters/freebsd_c/helper.c against the text of its messages.
use sctp_conformance.Base.{
  ℕ, suc, ◌^◌, ◌≤◌, ◌<◌, ◌≡◌, ◌≢◌, refl, sym, ap, ◌∙◌, arith, false, List, [], ◌∷◌, ◌++◌,
  append-nil, append_assoc, map, some, Bytes, All, All-append, length, take-all, decimal,
}
use sctp_conformance.Text.{join_from, join}
use sctp_conformance.Options.Digits.{IsDigit, decimal-IsDigit, strtoul-decimal}
use sctp_conformance.Helper.{MessageSpec, Options, Libc, Calls, max_messages}
use sctp_conformance.Helper.Parse.{
  strtok_loop, split_csv, strchr, parse_message, message_specs, parse_messages,
}
use sctp_conformance.Helper.Client.{client_messages}

-- A message as the caller of the helper writes it.
abbrev pub message_text : MessageSpec → Bytes
message_text m = m.payload ++ (b':' ∷ (decimal m.stream ++ (b':' ∷ decimal m.ppid)))

-- The value of `--messages`.
abbrev pub messages_text : List MessageSpec → Bytes
messages_text ms = join (map message_text ms) (b',' ∷ [])

-- The payload fits its buffer and has no delimiter in it, and the numbers fit their types.
abbrev pub Fits : MessageSpec → Type 0
Fits m =
    All (λ c. (c ≢ b',') × (c ≢ b':')) m.payload
    × (length m.payload < 256)
    × (m.stream < 2 ^ 16)
    × (m.ppid < 2 ^ 32)

-- A part that `strtok` hands out as it is.
abbrev IsToken : Bytes → Type 0
IsToken part = (part ≢ []) × All (λ c. c ≢ b',') part

strtok_loop-append :
    (part current rest : Bytes)
    → All (λ c. c ≢ b',') part
    → strtok_loop current (part ++ rest) ≡ strtok_loop (current ++ part) rest
unfolding strtok_loop
strtok_loop-append [] current rest h =
    ap (λ (x : Bytes). strtok_loop x rest) (sym (append-nil current))
strtok_loop-append (c ∷ cs) current rest h =
    ground
      (arith, strtok_loop-append cs (current ++ c ∷ []) rest h.1, append_assoc current (c ∷ []) cs)

strtok_loop-end : (part : Bytes) → part ≢ [] → strtok_loop part [] ≡ part ∷ []
unfolding strtok_loop
strtok_loop-end [] h = absurd (h refl)
strtok_loop-end (c ∷ cs) h = refl

strtok_loop-comma :
    (part rest : Bytes) → part ≢ [] → strtok_loop part (b',' ∷ rest) ≡ part ∷ strtok_loop [] rest
unfolding strtok_loop
strtok_loop-comma [] rest h = absurd (h refl)
strtok_loop-comma (c ∷ cs) rest h = ground arith

strtok_loop-join :
    (part : Bytes) (parts : List Bytes)
    → IsToken part
    → All IsToken parts
    → strtok_loop [] (part ++ join_from false (b',' ∷ []) parts) ≡ part ∷ parts
unfolding join_from
strtok_loop-join part [] h k = strtok_loop-append part [] [] h.1 ∙ strtok_loop-end part h.0
strtok_loop-join part (q ∷ parts) h k =
    strtok_loop-append part [] _ h.1
    ∙ strtok_loop-comma part (q ++ join_from false (b',' ∷ []) parts) h.0
    ∙ ap (λ (x : List Bytes). part ∷ x) (strtok_loop-join q parts k.0 k.1)

split_csv-join :
    (parts : List Bytes) → All IsToken parts → split_csv (join parts (b',' ∷ [])) ≡ parts
unfolding split_csv join join_from
split_csv-join [] h = unfold strtok_loop in refl
split_csv-join (part ∷ parts) h = strtok_loop-join part parts h.0 h.1

strchr-append :
    (c : ℕ) (part rest : Bytes)
    → All (λ x. x ≢ c) part
    → strchr c (part ++ c ∷ rest) ≡ some (part, rest)
unfolding strchr
strchr-append c [] rest h = ground arith
strchr-append c (x ∷ xs) rest h = ground (arith, strchr-append c xs rest h.1)

-- No digit is that byte.
digits_avoid : (c : ℕ) (ds : Bytes) → b'9' < c → All IsDigit ds → All (λ x. x ≢ c) ds
digits_avoid c [] h k = tt
digits_avoid c (d ∷ ds) h k = (λ e. omega arith, digits_avoid c ds h k.1)

digits_avoid_comma : (ds : Bytes) → All IsDigit ds → All (λ x. x ≢ b',') ds
digits_avoid_comma [] k = tt
digits_avoid_comma (d ∷ ds) k = (λ e. omega arith, digits_avoid_comma ds k.1)

avoids :
    (payload : Bytes)
    → All (λ c. (c ≢ b',') × (c ≢ b':')) payload
    → All (λ c. c ≢ b',') payload × All (λ c. c ≢ b':') payload
avoids [] h = (tt, tt)
avoids (c ∷ cs) h = ((h.0.0, (avoids cs h.1).0), (h.0.1, (avoids cs h.1).1))

append-nonempty : (xs : Bytes) (c : ℕ) (rest : Bytes) → (xs ++ c ∷ rest) ≢ []
append-nonempty [] c rest = λ e. absurd (ground (arith, e))
append-nonempty (x ∷ xs) c rest = λ e. absurd (ground (arith, e))

message_text-IsToken : (m : MessageSpec) → Fits m → IsToken (message_text m)
message_text-IsToken m h = (
  append-nonempty m.payload b':' (decimal m.stream ++ b':' ∷ decimal m.ppid),
  All-append (λ c. c ≢ b',') m.payload _ (avoids m.payload h.0).0
      (
        λ e. omega arith,
        All-append (λ c. c ≢ b',') (decimal m.stream) _
            (digits_avoid_comma (decimal m.stream) (decimal-IsDigit m.stream))
            (λ e. omega arith, digits_avoid_comma (decimal m.ppid) (decimal-IsDigit m.ppid)),
      ),
)

parse_message-message_text : (m : MessageSpec) → Fits m → parse_message (message_text m) ≡ some m
unfolding parse_message
parse_message-message_text m h = ground (
  arith,
  strchr-append b':' m.payload (decimal m.stream ++ b':' ∷ decimal m.ppid) (avoids m.payload h.0).1,
  strchr-append b':' (decimal m.stream) (decimal m.ppid)
      (digits_avoid b':' (decimal m.stream) (omega arith) (decimal-IsDigit m.stream)),
  take-all 255 m.payload (omega (arith, h.1)),
  strtoul-decimal m.stream (omega (arith, h.2)),
  strtoul-decimal m.ppid (omega (arith, h.3)),
)

message_specs-map :
    (ms : List MessageSpec) → All Fits ms → message_specs (map message_text ms) ≡ some ms
unfolding message_specs
message_specs-map [] h = refl
message_specs-map (m ∷ ms) h =
    ground (arith, parse_message-message_text m h.0, message_specs-map ms h.1)

map-IsToken : (ms : List MessageSpec) → All Fits ms → All IsToken (map message_text ms)
map-IsToken [] h = tt
map-IsToken (m ∷ ms) h = (message_text-IsToken m h.0, map-IsToken ms h.1)

length-map : (ms : List MessageSpec) → length (map message_text ms) ≡ length ms
length-map [] = refl
length-map (m ∷ ms) = ap suc (length-map ms)

parse_messages-messages_text :
    (ms : List MessageSpec)
    → All Fits ms
    → length ms ≤ max_messages
    → parse_messages (messages_text ms) ≡ some ms
unfolding parse_messages
parse_messages-messages_text ms h k =
    rw (split_csv-join (map message_text ms) (map-IsToken ms h))
      (ground (arith, length-map ms, message_specs-map ms h))

module _ (libc : Libc) (k : Calls) (opts : Options) where
  pub client_messages_told :
      (ms : List MessageSpec)
      → opts.messages ≡ some (messages_text ms)
      → All Fits ms
      → length ms ≤ 16
      → length (messages_text ms) < 512
      → client_messages libc k opts ≡ some ms
  unfolding client_messages
  client_messages_told ms told h few short =
      rw (told, client_messages)
        (ap parse_messages (take-all 511 (messages_text ms) (omega arith))
          ∙ parse_messages-messages_text ms h few)

module _ (libc : Libc) (k : Calls) (opts : Options) where
  -- The messages that a caller writes as payload, stream and PPID in decimal, with ':' between them
  -- and ',' between two messages, are the messages that `run_client` sends. The payloads have no ','
  -- and no ':' and are shorter than 256 bytes, the numbers fit their types, there are at most 16
  -- messages, and the text as a whole is shorter than 512 bytes, which the copy cuts.
  pub client_messages-messages_text :
      (ms : List MessageSpec)
      → All Fits ms
      → length ms ≤ 16
      → length (messages_text ms) < 512
      → client_messages libc k (record opts { messages = some (messages_text ms) }) ≡ some ms
  client_messages-messages_text ms h few short =
      client_messages_told libc k (record opts { messages = some (messages_text ms) }) ms refl h few
        short
