-- ===== src/Json/Shrinks.antt =====
-- How much of the input the string reader and the separators of the JSON reader leave.
use sctp_conformance.Base.{
  ℕ, zero, suc, ◌≤◌, ◌<◌, Bool, true, false, [], ◌∷◌, ◌++◌, arith, ◌==◌, if◌then◌else◌, Bytes,
  length,
}
use sctp_conformance.Json.Value.{Parsed, parsed, failed, out_of_fuel, ◌>>=◌}
use sctp_conformance.Json.Strings.{
  unicode_escape, after_backslash, string_loop, parse_json_string_value, skip_json_ws,
}
use sctp_conformance.Json.Parser.{starts_with, tail, expect, separator, Separator, closed, more}

-- The call returned, and on success fewer than `n` bytes are left.
abbrev pub Shrinks {ℓ} : {A : Type ℓ} → ℕ → Parsed A → Type 0
Shrinks n (parsed a rest) = length rest < n
Shrinks n (failed e) = Unit
Shrinks n out_of_fuel = ⊥

pub Shrinks-bind {ℓ κ} :
    {A : Type ℓ} {B : Type κ} (n k : ℕ) (m : Parsed A) (f : A × Bytes → Parsed B)
    → Shrinks n m
    → ((a : A) (rest : Bytes) → length rest < n → Shrinks k (f (a, rest)))
    → Shrinks k (m >>= f)
Shrinks-bind n k (parsed a rest) f h g = g a rest h
Shrinks-bind n k (failed e) f h g = tt
Shrinks-bind n k out_of_fuel f h g = absurd h

pub Shrinks-mono {ℓ} : {A : Type ℓ} (n k : ℕ) (m : Parsed A) → n ≤ k → Shrinks n m → Shrinks k m
Shrinks-mono n k (parsed a rest) h s = omega arith
Shrinks-mono n k (failed e) h s = tt
Shrinks-mono n k out_of_fuel h s = absurd s

pub Shrinks-if {ℓ} :
    {A : Type ℓ} (k : ℕ) (b : Bool) (x y : Parsed A)
    → Shrinks k x
    → Shrinks k y
    → Shrinks k (if b then x else y)
Shrinks-if k true x y h g = h
Shrinks-if k false x y h g = g

unicode_escape-Shrinks : (input : Bytes) → Shrinks (suc (length input)) (unicode_escape input)
unfolding unicode_escape
unicode_escape-Shrinks (a ∷ b ∷ c ∷ d ∷ rest) = ground arith
unicode_escape-Shrinks _ = tt

after_backslash-Shrinks : (input : Bytes) → Shrinks (length input) (after_backslash input)
unfolding after_backslash
after_backslash-Shrinks [] = tt
after_backslash-Shrinks (esc ∷ rest) = ground (arith, unicode_escape-Shrinks rest)

string_loop-Shrinks :
    (fuel : ℕ) (buffer input : Bytes)
    → length input < fuel
    → Shrinks (length input) (string_loop fuel buffer input)
unfolding string_loop
string_loop-Shrinks zero buffer input h = absurd (omega arith)
string_loop-Shrinks (suc fuel) buffer [] h = tt
string_loop-Shrinks (suc fuel) buffer (ch ∷ rest) h =
    let n = length rest in
    Shrinks-if (suc n) (ch == b'"') (parsed buffer rest) _ (omega arith) (
      Shrinks-if (suc n) (ch == b'\\') _ _
        (Shrinks-bind n (suc n) (after_backslash rest) (λ p. string_loop fuel (buffer ++ p.0) p.1)
          (after_backslash-Shrinks rest)
          λ out rest' lt.
            Shrinks-mono (length rest') (suc n) _ (omega arith)
              (string_loop-Shrinks fuel (buffer ++ out) rest' (omega arith)))
        (Shrinks-mono n (suc n) _ (omega arith)
          (string_loop-Shrinks fuel (buffer ++ ch ∷ []) rest (omega arith))))

pub parse_json_string_value-Shrinks :
    (input : Bytes) → Shrinks (length input) (parse_json_string_value input)
unfolding parse_json_string_value
parse_json_string_value-Shrinks [] = tt
parse_json_string_value-Shrinks (c ∷ rest) = ground (
  arith,
  string_loop-Shrinks (suc (length rest)) [] rest,
  Shrinks-mono {A = Bytes} (length rest) (suc (length rest))
      (string_loop (suc (length rest)) [] rest),
)

pub length-skip_json_ws : (input : Bytes) → length (skip_json_ws input) ≤ length input
unfolding skip_json_ws
length-skip_json_ws [] = omega arith
length-skip_json_ws (c ∷ cs) = ground (arith, length-skip_json_ws cs)

pub expect-Shrinks :
    (c : ℕ) (message input : Bytes) → Shrinks (length input) (expect c message input)
unfolding expect
expect-Shrinks c message input = go (skip_json_ws input) (length-skip_json_ws input)
  where
    go :
        (rest : Bytes)
        → length rest ≤ length input
        → Shrinks {A = Unit {0}}
            (length input)
            (if starts_with c rest then parsed tt (tail rest) else failed message)
    go [] h = tt
    go (x ∷ xs) h = Shrinks-if _ (x == c) _ _ (omega arith) tt

separator-Shrinks :
    (close : ℕ) (unterminated input : Bytes)
    → Shrinks (length input) (separator close unterminated input)
unfolding separator
separator-Shrinks close unterminated input = ground (arith, length-skip_json_ws input)

pub length-tail : (s : Bytes) → length (tail s) ≤ length s
length-tail [] = omega arith
length-tail (x ∷ xs) = omega arith

-- The result of a nested call, wrapped by a constructor.
pub Shrinks-wrap {ℓ κ} :
    {A : Type ℓ} {B : Type κ} (n k : ℕ) (m : Parsed A) (g : A → B)
    → n ≤ k
    → Shrinks n m
    → Shrinks k (m >>= λ p. parsed (g p.0) p.1)
Shrinks-wrap n k m g h s = Shrinks-bind n k m (λ p. parsed (g p.0) p.1) s λ a rest lt. omega arith

-- The end of a round: the loop goes on at a shorter rest.
pub Shrinks-round {ℓ} :
    {A : Type ℓ} (k close : ℕ) (unterminated input : Bytes) (done : A) (loop : Bytes → Parsed A)
    → length input ≤ k
    → ((rest : Bytes) → length rest < length input → Shrinks (length rest) (loop rest))
    → Shrinks k (
        separator close unterminated input >>= λ s. elim s.0 [
          | closed ↦ parsed done s.1
          | more ↦ loop s.1
        ])
Shrinks-round {A} k close unterminated input done loop h next =
    Shrinks-bind (length input) k (separator close unterminated input) _
      (separator-Shrinks close unterminated input) round
  where
    round :
        (s : Separator) (rest : Bytes)
        → length rest < length input
        → Shrinks k (elim s as (λ _. Parsed A) [ closed ↦ parsed done rest | more ↦ loop rest ])
    round closed rest lt = omega arith
    round more rest lt = Shrinks-mono (length rest) k (loop rest) (omega arith) (next rest lt)
