-- ===== src/Text.antt =====
-- The string helpers at the head of server/freebsd_ref/main.cpp: `trim` to `join`, the escapes
-- for JSON and HTML, and the arrays of JSON strings and bytes. A loop over an `ostringstream`
-- returns what it writes.
pub mod Split
pub mod Html
use sctp_conformance.Base.{
  ℕ, ◌+◌, ◌-◌, ◌/◌, ◌%◌, Bool, true, false, ◌&&◌, ◌||◌, List, [], ◌∷◌, ◌++◌, ltb, leb, ◌==◌,
  if◌then◌else◌, Bytes, codes, is_empty, decimal,
}

-- `std::isspace` in the C locale.
unfoldable pub is_space : ℕ → Bool
is_space c = c == b' ' || (leb 9 c && leb c 13)

-- The first loop of `trim`.
unfoldable pub trim_start : Bytes → Bytes
unfolding is_space
trim_start [] = []
trim_start (c ∷ cs) = if is_space c then trim_start cs else c ∷ cs

-- The second loop of `trim`, from the right.
unfoldable pub trim_end : Bytes → Bytes
unfolding is_space
trim_end [] = []
trim_end (c ∷ cs) = let rest = trim_end cs in if is_empty rest && is_space c then [] else c ∷ rest

unfoldable pub trim : Bytes → Bytes
unfolding trim_start trim_end
trim value = trim_end (trim_start value)

-- What the calls of `std::getline` on one stream return: `current` has been read since the last
-- delimiter. The last call fails where the input ends right behind a delimiter.
unfoldable pub get_lines : ℕ → Bytes → Bytes → List Bytes
get_lines delimiter [] [] = []
get_lines delimiter (x ∷ xs) [] = (x ∷ xs) ∷ []
get_lines delimiter current (c ∷ cs) =
    let at_end = current ∷ get_lines delimiter [] cs in
    let inside = get_lines delimiter (current ++ c ∷ []) cs in
    if c == delimiter then at_end else inside

-- The loop of `split` over the pieces.
unfoldable pub nonempty_trimmed : List Bytes → List Bytes
unfolding trim
nonempty_trimmed [] = []
nonempty_trimmed (p ∷ ps) =
    let current = trim p in
    let rest = nonempty_trimmed ps in if is_empty current then rest else current ∷ rest

unfoldable pub split : Bytes → ℕ → List Bytes
unfolding get_lines nonempty_trimmed
split value delimiter = nonempty_trimmed (get_lines delimiter [] value)

-- The rounds of a loop that writes `delimiter` in front of each value but the first.
unfoldable pub join_from : Bool → Bytes → List Bytes → Bytes
join_from first delimiter [] = []
join_from first delimiter (v ∷ vs) =
    (if first then [] else delimiter) ++ (v ++ join_from false delimiter vs)

unfoldable pub join : List Bytes → Bytes → Bytes
unfolding join_from
join values delimiter = join_from true delimiter values

-- A digit under `std::hex`.
unfoldable pub hex_digit : ℕ → ℕ
hex_digit d = if ltb d 10 then b'0' + d else b'a' + (d - 10)

-- A number below 65536 under `std::hex`, `setw(4)` and `setfill('0')`.
unfoldable pub hex4 : ℕ → Bytes
unfolding hex_digit
hex4 n =
    hex_digit (n / 4096 % 16)
    ∷ hex_digit (n / 256 % 16)
    ∷ hex_digit (n / 16 % 16)
    ∷ hex_digit (n % 16)
    ∷ []

-- The `switch` of `json_escape`.
unfoldable pub json_escape_byte : ℕ → Bytes
unfolding hex4
json_escape_byte ch =
    if ch == b'\\'
    then b'\\' ∷ b'\\' ∷ []
    else if ch == b'"'
    then b'\\' ∷ b'"' ∷ []
    else if ch == b'\n'
    then b'\\' ∷ b'n' ∷ []
    else if ch == b'\r'
    then b'\\' ∷ b'r' ∷ []
    else if ch == b'\t'
    then b'\\' ∷ b't' ∷ []
    else if ltb ch 0x20
    then b'\\' ∷ b'u' ∷ hex4 ch
    else ch ∷ []

unfoldable pub json_escape : Bytes → Bytes
unfolding json_escape_byte
json_escape [] = []
json_escape (ch ∷ rest) = json_escape_byte ch ++ json_escape rest

unfoldable pub json_quote : Bytes → Bytes
unfolding json_escape
json_quote value = b'"' ∷ (json_escape value ++ b'"' ∷ [])

-- The `switch` of `html_escape`.
unfoldable pub html_escape_byte : ℕ → Bytes
html_escape_byte ch =
    if ch == b'&'
    then codes "&amp;"
    else if ch == b'<'
    then codes "&lt;"
    else if ch == b'>'
    then codes "&gt;"
    else if ch == b'"'
    then codes "&quot;"
    else if ch == b'\''
    then codes "&#39;"
    else ch ∷ []

unfoldable pub html_escape : Bytes → Bytes
unfolding html_escape_byte
html_escape [] = []
html_escape (ch ∷ rest) = html_escape_byte ch ++ html_escape rest

unfoldable pub json_bool : Bool → Bytes
json_bool value = if value then codes "true" else codes "false"

-- The loops of `json_array_strings` and `json_array_uint8`.
unfoldable pub json_strings_from : Bool → List Bytes → Bytes
unfolding json_quote
json_strings_from first [] = []
json_strings_from first (v ∷ vs) =
    (if first then [] else codes ",") ++ (json_quote v ++ json_strings_from false vs)

unfoldable pub json_array_strings : List Bytes → Bytes
unfolding json_strings_from
json_array_strings values = b'[' ∷ (json_strings_from true values ++ b']' ∷ [])

unfoldable pub json_uint8_from : Bool → Bytes → Bytes
unfolding decimal
json_uint8_from first [] = []
json_uint8_from first (v ∷ vs) =
    (if first then [] else codes ",") ++ (decimal v ++ json_uint8_from false vs)

unfoldable pub json_array_uint8 : Bytes → Bytes
unfolding json_uint8_from
json_array_uint8 values = b'[' ∷ (json_uint8_from true values ++ b']' ∷ [])

unfoldable pub json_error : Bytes → Bytes
unfolding json_quote
json_error message = codes "{\"error\":" ++ (json_quote message ++ codes "}")
