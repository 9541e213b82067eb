-- ===== src/Json/Total.antt =====
-- The fuel of the JSON reader, and how much of the input is left.
use sctp_conformance.Base.{ℕ, zero, suc, ◌+◌, ◌*◌, ◌≤◌, [], ◌∷◌, arith, Bytes, length}
use sctp_conformance.Json.Value.{
  parsed, string, object, array, Members, Elements, set_member, push_element, no_members,
  no_elements,
}
use sctp_conformance.Json.Strings.{parse_json_string_value, skip_json_ws}
use sctp_conformance.Json.Parser.{
  tail, expect, parse_json_value, parse_json_object_value, object_loop, parse_json_array_value,
  array_loop, root_fuel,
}
use sctp_conformance.Json.Shrinks.{
  Shrinks, Shrinks-bind, Shrinks-mono, Shrinks-if, Shrinks-wrap, Shrinks-round, expect-Shrinks,
  length-skip_json_ws, length-tail, parse_json_string_value-Shrinks,
}

mutual
  unfolding parse_json_value

  value-Shrinks :
      (fuel : ℕ) (input : Bytes)
      → 3 * length input + 3 ≤ fuel
      → Shrinks (length input) (parse_json_value fuel input)
  value-Shrinks zero input h = absurd (omega arith)
  value-Shrinks (suc fuel) input h =
      let rest = skip_json_ws input in
      let le : length rest ≤ length input = length-skip_json_ws input in
      let text =
        Shrinks-wrap (length rest) (length input) _ string le
          (parse_json_string_value-Shrinks rest) in
      let members =
        Shrinks-wrap (length rest) (length input) _ object le
          (object-Shrinks fuel rest (omega arith)) in
      let elements =
        Shrinks-wrap (length rest) (length input) _ array le
          (array-Shrinks fuel rest (omega arith)) in
      ground (arith, text, members, elements)

  object-Shrinks :
      (fuel : ℕ) (input : Bytes)
      → 3 * length input + 2 ≤ fuel
      → Shrinks (length input) (parse_json_object_value fuel input)
  object-Shrinks zero input h = absurd (omega arith)
  object-Shrinks (suc fuel) input h =
      let k = length input in
      Shrinks-bind k k (expect b'{' _ input) _ (expect-Shrinks b'{' _ input) λ u after lt.
        let rest = skip_json_ws after in
        let le : length rest ≤ length after = length-skip_json_ws after in
        Shrinks-if k _ (parsed no_members (tail rest)) (object_loop fuel no_members rest)
          (omega (arith, length-tail rest))
          (Shrinks-mono (length rest) k (object_loop fuel no_members rest) (omega arith)
            (object_loop-Shrinks fuel no_members rest (omega arith)))

  object_loop-Shrinks :
      (fuel : ℕ) (out : Members) (input : Bytes)
      → 3 * length input + 4 ≤ fuel
      → Shrinks (length input) (object_loop fuel out input)
  object_loop-Shrinks zero out input h = absurd (omega arith)
  object_loop-Shrinks (suc fuel) out [] h = tt
  object_loop-Shrinks (suc fuel) out (c ∷ cs) h =
      let start = skip_json_ws (c ∷ cs) in
      let le : length start ≤ suc (length cs) = length-skip_json_ws (c ∷ cs) in
      let k = suc (length cs) in
      Shrinks-bind (length start) k (parse_json_string_value start) _
        (parse_json_string_value-Shrinks start)
        λ key r1 lt1.
          Shrinks-bind (length r1) k (expect b':' _ r1) _ (expect-Shrinks b':' _ r1) λ u r2 lt2.
            Shrinks-bind (length r2) k (parse_json_value fuel r2) _
              (value-Shrinks fuel r2 (omega arith))
              λ v r3 lt3.
                Shrinks-round k b'}' _ r3 _ (object_loop fuel (set_member key v out)) (omega arith)
                  λ r4 lt4. object_loop-Shrinks fuel (set_member key v out) r4 (omega arith)

  array-Shrinks :
      (fuel : ℕ) (input : Bytes)
      → 3 * length input + 2 ≤ fuel
      → Shrinks (length input) (parse_json_array_value fuel input)
  array-Shrinks zero input h = absurd (omega arith)
  array-Shrinks (suc fuel) input h =
      let k = length input in
      Shrinks-bind k k (expect b'[' _ input) _ (expect-Shrinks b'[' _ input) λ u after lt.
        let rest = skip_json_ws after in
        let le : length rest ≤ length after = length-skip_json_ws after in
        Shrinks-if k _ (parsed no_elements (tail rest)) (array_loop fuel no_elements rest)
          (omega (arith, length-tail rest))
          (Shrinks-mono (length rest) k (array_loop fuel no_elements rest) (omega arith)
            (array_loop-Shrinks fuel no_elements rest (omega arith)))

  array_loop-Shrinks :
      (fuel : ℕ) (out : Elements) (input : Bytes)
      → 3 * length input + 4 ≤ fuel
      → Shrinks (length input) (array_loop fuel out input)
  array_loop-Shrinks zero out input h = absurd (omega arith)
  array_loop-Shrinks (suc fuel) out [] h = tt
  array_loop-Shrinks (suc fuel) out (c ∷ cs) h =
      let k = suc (length cs) in
      Shrinks-bind k k (parse_json_value fuel (c ∷ cs)) _
        (value-Shrinks fuel (c ∷ cs) (omega arith))
        λ v r1 lt1.
          Shrinks-round k b']' _ r1 _ (array_loop fuel (push_element out v)) (omega arith)
            λ r2 lt2. array_loop-Shrinks fuel (push_element out v) r2 (omega arith)

-- Three units of fuel for each byte and three more are enough for every value: the reader returns
-- a value with a shorter rest, or an error.
pub parse_json_value-Shrinks :
    (input : Bytes) → Shrinks (length input) (parse_json_value (root_fuel input) input)
parse_json_value-Shrinks input = value-Shrinks (root_fuel input) input (omega arith)

-- The call that `parse_json_root_object` makes returns, whatever the body: an object with a shorter
-- rest, or an error.
pub parse_json_object_value-Shrinks :
    (input : Bytes) → Shrinks (length input) (parse_json_object_value (root_fuel input) input)
parse_json_object_value-Shrinks input = object-Shrinks (root_fuel input) input (omega arith)
