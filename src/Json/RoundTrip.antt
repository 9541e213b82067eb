-- ===== src/Json/RoundTrip.antt =====
-- `parse_json_string_value` against `json_quote`.
use sctp_conformance.Base.{
  ℕ, zero, suc, ◌≤◌, ◌<◌, Bool, true, false, [], ◌∷◌, ◌++◌, ◌≡◌, refl, ap, ◌∙◌, arith, Option, none,
  some, ◌==◌, ==_iff, Bytes, length, length-append, append_assoc, append-nil, all_below,
  all_below_sound,
}
use sctp_conformance.Text.{hex4, json_escape_byte, json_escape, json_quote}
use sctp_conformance.Json.Value.{parsed}
use sctp_conformance.Json.Strings.{
  append_utf8_codepoint, read_hex, unicode_escape, after_backslash, string_loop,
  parse_json_string_value,
}

abbrev reads : ℕ → Option ℕ → Bool
reads ch none = false
reads ch (some v) = v == ch

read_hex-hex4_table : all_below 32 (λ ch. reads ch (read_hex 0 (hex4 ch))) ≡ true
unfolding all_below read_hex hex4
read_hex-hex4_table = refl

reads-eq : (ch : ℕ) (o : Option ℕ) → reads ch o ≡ true → o ≡ some ch
reads-eq ch none h = cc
reads-eq ch (some v) h = ap some ((==_iff v ch).0 h)

-- The four digits that `json_escape` writes for a control byte are read back.
pub read_hex-hex4 : (ch : ℕ) → ch < 32 → read_hex 0 (hex4 ch) ≡ some ch
read_hex-hex4 ch h = reads-eq ch _ (all_below_sound 32 _ ch read_hex-hex4_table h)

append_utf8_codepoint-ascii : (ch : ℕ) → ch < 32 → append_utf8_codepoint ch ≡ some (ch ∷ [])
unfolding append_utf8_codepoint
append_utf8_codepoint-ascii ch h = ground arith

after_backslash-hex4 :
    (ch : ℕ) (rest : Bytes)
    → ch < 32
    → after_backslash (b'u' ∷ (hex4 ch ++ rest)) ≡ parsed (ch ∷ []) rest
unfolding after_backslash unicode_escape hex4
after_backslash-hex4 ch rest h =
    rw (read_hex-hex4 ch h, unicode_escape) (rw (append_utf8_codepoint-ascii ch h, unicode_escape))

-- One byte of the text, escaped, takes one round of the loop.
string_loop-json_escape_byte :
    (ch fuel : ℕ) (buffer rest : Bytes)
    → string_loop (suc fuel) buffer (json_escape_byte ch ++ rest)
      ≡ string_loop fuel (buffer ++ ch ∷ []) rest
unfolding string_loop json_escape_byte
string_loop-json_escape_byte ch fuel buffer rest = ground (arith, after_backslash-hex4 ch rest)

string_loop-json_escape :
    (s : Bytes) (fuel : ℕ) (buffer rest : Bytes)
    → length s < fuel
    → string_loop fuel buffer (json_escape s ++ b'"' ∷ rest) ≡ parsed (buffer ++ s) rest
unfolding json_escape
string_loop-json_escape s zero buffer rest h = absurd (omega arith)
string_loop-json_escape [] (suc fuel) buffer rest h =
    unfold string_loop in ground (arith, append-nil buffer)
string_loop-json_escape (ch ∷ s) (suc fuel) buffer rest h =
    ap (string_loop (suc fuel) buffer)
      (append_assoc (json_escape_byte ch) (json_escape s) (b'"' ∷ rest))
    ∙ string_loop-json_escape_byte ch fuel buffer _
    ∙ string_loop-json_escape s fuel (buffer ++ ch ∷ []) rest (omega arith)
    ∙ ap (λ b. parsed b rest) (append_assoc buffer (ch ∷ []) s)

length-json_escape_byte : (ch : ℕ) → 0 < length (json_escape_byte ch)
unfolding json_escape_byte hex4
length-json_escape_byte ch = ground arith

length-json_escape : (s : Bytes) → length s ≤ length (json_escape s)
unfolding json_escape
length-json_escape [] = omega arith
length-json_escape (ch ∷ s) = omega (
  arith,
  length-append (json_escape_byte ch) (json_escape s),
  length-json_escape_byte ch,
  length-json_escape s,
)

-- `parse_json_string_value` reads back what `json_quote` writes, for every byte string, control
-- bytes and quotes included, and stops right behind it.
pub parse_json_string_value-json_quote :
    (s rest : Bytes) → parse_json_string_value (json_quote s ++ rest) ≡ parsed s rest
unfolding parse_json_string_value json_quote
parse_json_string_value-json_quote s rest =
    ap (λ x. string_loop (suc (length x)) [] x) (append_assoc (json_escape s) (b'"' ∷ []) rest)
    ∙ string_loop-json_escape s (suc (length (json_escape s ++ b'"' ∷ rest))) [] rest
        (omega (arith, length-json_escape s, length-append (json_escape s) (b'"' ∷ rest)))
