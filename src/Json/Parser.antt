-- ===== src/Json/Parser.antt =====
-- `parse_json_value` and the functions that it calls, down to `parse_simple_json_object`, of
-- server/freebsd_ref/main.cpp.
use sctp_conformance.Base.{
  ℕ, zero, suc, ◌+◌, ◌*◌, Bool, false, [], ◌∷◌, ◌==◌, if◌then◌else◌, Bytes, codes, length, is_empty,
}
use sctp_conformance.Json.Value.{
  JsonValue, string, object, array, Members, no_members, member, Elements, no_elements, Parsed,
  parsed, failed, out_of_fuel, ◌>>=◌, set_member, push_element, Params, Outcome, ok, error,
}
use sctp_conformance.Json.Strings.{skip_json_ws, parse_json_string_value}

-- `input[i] == c`, false at the end of the input.
abbrev pub starts_with : ℕ → Bytes → Bool
starts_with c [] = false
starts_with c (x ∷ xs) = x == c

abbrev pub tail : Bytes → Bytes
tail [] = []
tail (x ∷ xs) = xs

-- Skip blanks, then take `c` or fail.
unfoldable pub expect : ℕ → Bytes → Bytes → Parsed (Unit {0})
unfolding skip_json_ws
expect c message input =
    let rest = skip_json_ws input in
    if starts_with c rest then parsed tt (tail rest) else failed message

-- The end of a round of the two loops: `close` ends, a comma goes on.
pub data Separator : Type 0 where
  closed more : Separator

unfoldable pub separator : ℕ → Bytes → Bytes → Parsed Separator
unfolding skip_json_ws
separator close unterminated input =
    let rest = skip_json_ws input in
    if is_empty rest
    then failed unterminated
    else if starts_with close rest
    then parsed closed (tail rest)
    else if starts_with b',' rest
    then parsed more (tail rest)
    else failed (codes "expected ','")

unfoldable mutual
  unfolding skip_json_ws expect separator set_member push_element parse_json_string_value

  pub parse_json_value : ℕ → Bytes → Parsed JsonValue
  parse_json_value zero input = out_of_fuel
  parse_json_value (suc fuel) input =
      let rest = skip_json_ws input in
      let text = parse_json_string_value rest >>= λ p. parsed (string p.0) p.1 in
      let as_object = parse_json_object_value fuel rest >>= λ p. parsed (object p.0) p.1 in
      let as_array = parse_json_array_value fuel rest >>= λ p. parsed (array p.0) p.1 in
      if is_empty rest
      then failed (codes "expected JSON value")
      else if starts_with b'"' rest
      then text
      else if starts_with b'{' rest
      then as_object
      else if starts_with b'[' rest
      then as_array
      else failed (codes "unsupported JSON value")

  pub parse_json_object_value : ℕ → Bytes → Parsed Members
  parse_json_object_value zero input = out_of_fuel
  parse_json_object_value (suc fuel) input =
      expect b'{' (codes "expected JSON object") input >>= λ p.
      let rest = skip_json_ws p.1 in
      let members = object_loop fuel no_members rest in
      if starts_with b'}' rest then parsed no_members (tail rest) else members

  pub object_loop : ℕ → Members → Bytes → Parsed Members
  object_loop zero out input = out_of_fuel
  object_loop (suc fuel) out [] = failed (codes "unterminated JSON object")
  object_loop (suc fuel) out (c ∷ cs) = parse_json_string_value (skip_json_ws (c ∷ cs)) >>= λ k.
      expect b':' (codes "expected ':'") k.1 >>= λ colon. parse_json_value fuel colon.1 >>= λ v.
      let out' = set_member k.0 v.0 out in
      separator b'}' (codes "unterminated JSON object") v.1 >>= λ s. elim s.0 [
        | closed ↦ parsed out' s.1
        | more ↦ object_loop fuel out' s.1
      ]

  pub parse_json_array_value : ℕ → Bytes → Parsed Elements
  parse_json_array_value zero input = out_of_fuel
  parse_json_array_value (suc fuel) input = expect b'[' (codes "expected JSON array") input >>= λ p.
      let rest = skip_json_ws p.1 in
      let elements = array_loop fuel no_elements rest in
      if starts_with b']' rest then parsed no_elements (tail rest) else elements

  pub array_loop : ℕ → Elements → Bytes → Parsed Elements
  array_loop zero out input = out_of_fuel
  array_loop (suc fuel) out [] = failed (codes "unterminated JSON array")
  array_loop (suc fuel) out (c ∷ cs) = parse_json_value fuel (c ∷ cs) >>= λ v.
      let out' = push_element out v.0 in
      separator b']' (codes "unterminated JSON array") v.1 >>= λ s. elim s.0 [
        | closed ↦ parsed out' s.1
        | more ↦ array_loop fuel out' s.1
      ]

-- Behind the call of `parse_json_object_value`.
unfoldable pub at_end : Parsed Members → Outcome Members
unfolding skip_json_ws
at_end (parsed m rest) =
    if is_empty (skip_json_ws rest) then ok m else error (codes "unexpected trailing JSON content")
at_end (failed e) = error e
at_end out_of_fuel = error []

-- Enough fuel for an object of the input's length.
abbrev pub root_fuel : Bytes → ℕ
root_fuel input = 3 * length input + 3

unfoldable pub parse_json_root_object : Bytes → Outcome Members
unfolding at_end parse_json_value
parse_json_root_object input = at_end (parse_json_object_value (root_fuel input) input)

-- The loop of `parse_simple_json_object`; the keys of an object are distinct.
unfoldable pub string_members : Members → Outcome Params
string_members no_members = ok []
string_members (member k (string s) rest) = elim (string_members rest) [
  | ok params ↦ ok ((k, s) ∷ params)
  | error e ↦ error e
]
string_members (member k _ rest) = error (codes "expected string JSON value")

unfoldable pub parse_simple_json_object : Bytes → Outcome Params
unfolding parse_json_root_object string_members
parse_simple_json_object input = elim (parse_json_root_object input) [
  | ok members ↦ string_members members
  | error e ↦ error e
]
