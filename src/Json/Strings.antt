-- ===== src/Json/Strings.antt =====
-- `append_utf8_codepoint`, `skip_json_ws` and `parse_json_string_value` of
-- server/freebsd_ref/main.cpp.
use Prim.Native.Nat.{bit_and, bit_or}
use sctp_conformance.Base.{
  ℕ, zero, suc, ◌+◌, ◌-◌, ◌*◌, ◌/◌, ◌%◌, ◌^◌, ◌&&◌, ◌||◌, [], ◌∷◌, ◌++◌, Option, none, some, leb,
  ◌==◌, if◌then◌else◌, Bytes, codes, length,
}
use sctp_conformance.Json.Value.{Parsed, parsed, failed, out_of_fuel, ◌>>=◌}
use sctp_conformance.Text.{is_space}

-- `x >> k`
abbrev shr : ℕ → ℕ → ℕ
shr x k = x / 2 ^ k

-- The bytes appended to the buffer, or `none` for `false`.
unfoldable pub append_utf8_codepoint : ℕ → Option Bytes
append_utf8_codepoint codepoint =
    if leb codepoint 0x7F
    then some (codepoint ∷ [])
    else if leb codepoint 0x7FF
    then some
        (bit_or 0xC0 (bit_and (shr codepoint 6) 0x1F) ∷ bit_or 0x80 (bit_and codepoint 0x3F) ∷ [])
    else if leb 0xD800 codepoint && leb codepoint 0xDFFF
    then none
    else if leb codepoint 0xFFFF
    then some (
        bit_or 0xE0 (bit_and (shr codepoint 12) 0x0F)
        ∷ bit_or 0x80 (bit_and (shr codepoint 6) 0x3F)
        ∷ bit_or 0x80 (bit_and codepoint 0x3F)
        ∷ [])
    else if leb codepoint 0x10FFFF
    then some (
        bit_or 0xF0 (bit_and (shr codepoint 18) 0x07)
        ∷ bit_or 0x80 (bit_and (shr codepoint 12) 0x3F)
        ∷ bit_or 0x80 (bit_and (shr codepoint 6) 0x3F)
        ∷ bit_or 0x80 (bit_and codepoint 0x3F)
        ∷ [])
    else none

unfoldable pub skip_json_ws : Bytes → Bytes
unfolding is_space
skip_json_ws [] = []
skip_json_ws (c ∷ cs) = if is_space c then skip_json_ws cs else c ∷ cs

-- The value of one digit of a `\u` escape.
unfoldable pub hex_value : ℕ → Option ℕ
hex_value digit =
    if leb b'0' digit && leb digit b'9'
    then some (digit - b'0')
    else if leb b'a' digit && leb digit b'f'
    then some (digit - b'a' + 10)
    else if leb b'A' digit && leb digit b'F'
    then some (digit - b'A' + 10)
    else none

-- The loop over the four digits: `codepoint <<= 4; codepoint |= …` on a `uint32_t`.
unfoldable pub read_hex : ℕ → Bytes → Option ℕ
unfolding hex_value
read_hex codepoint [] = some codepoint
read_hex codepoint (digit ∷ digits) = elim (hex_value digit) [
  | none ↦ none
  | some v ↦ read_hex (bit_or (codepoint * 16 % 2 ^ 32) v) digits
]

-- `case 'u'`, with the four bytes behind it.
unfoldable pub unicode_escape : Bytes → Parsed Bytes
unicode_escape (a ∷ b ∷ c ∷ d ∷ rest) = elim (read_hex 0 (a ∷ b ∷ c ∷ d ∷ [])) [
  | none ↦ failed (codes "invalid JSON unicode escape")
  | some codepoint ↦ elim (append_utf8_codepoint codepoint) [
    | none ↦ failed (codes "unsupported JSON unicode escape")
    | some out ↦ parsed out rest
  ]
]
unicode_escape _ = failed (codes "invalid JSON unicode escape")

-- The `switch` on the byte behind a backslash.
unfoldable pub read_escape : ℕ → Bytes → Parsed Bytes
unfolding unicode_escape
read_escape esc rest =
    if esc == b'"' || esc == b'\\' || esc == b'/'
    then parsed (esc ∷ []) rest
    else if esc == b'b'
    then parsed (8 ∷ []) rest
    else if esc == b'f'
    then parsed (12 ∷ []) rest
    else if esc == b'n'
    then parsed (b'\n' ∷ []) rest
    else if esc == b'r'
    then parsed (b'\r' ∷ []) rest
    else if esc == b't'
    then parsed (b'\t' ∷ []) rest
    else if esc == b'u'
    then unicode_escape rest
    else failed (codes "unsupported JSON escape")

-- One round of the loop of `parse_json_string_value` behind a backslash.
unfoldable pub after_backslash : Bytes → Parsed Bytes
unfolding read_escape
after_backslash [] = failed (codes "invalid JSON escape")
after_backslash (esc ∷ rest) = read_escape esc rest

-- The loop of `parse_json_string_value`; a round takes a byte at least.
unfoldable pub string_loop : ℕ → Bytes → Bytes → Parsed Bytes
unfolding after_backslash
string_loop zero buffer input = out_of_fuel
string_loop (suc fuel) buffer [] = failed (codes "unterminated JSON string")
string_loop (suc fuel) buffer (ch ∷ rest) =
    let escaped = after_backslash rest >>= λ p. string_loop fuel (buffer ++ p.0) p.1 in
    let plain = string_loop fuel (buffer ++ ch ∷ []) rest in
    if ch == b'"' then parsed buffer rest else if ch == b'\\' then escaped else plain

unfoldable pub parse_json_string_value : Bytes → Parsed Bytes
unfolding string_loop
parse_json_string_value [] = failed (codes "expected JSON string")
parse_json_string_value (c ∷ rest) =
    if c == b'"'
    then string_loop (suc (length rest)) [] rest
    else failed (codes "expected JSON string")
