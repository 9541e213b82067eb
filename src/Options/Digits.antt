-- ===== src/Options/Digits.antt =====
-- `strtoul` against `std::to_string` and `%u`.
use sctp_conformance.Base.{
  ℕ, zero, suc, ◌+◌, ◌-◌, ◌*◌, ◌/◌, ◌%◌, ◌^◌, ◌≤◌, ◌<◌, ◌≡◌, refl, sym, ap, ◌∙◌, inl, inr, arith,
  Bool-cases, [], ◌∷◌, ◌++◌, append_assoc, ltb, Bytes, All, All-append, decimal, decimal_onto,
}
use mathlib.Core.Path.{subst}
use sctp_conformance.Text.{trim_start, is_space}
use sctp_conformance.Options.{digits_value, strtoul}

abbrev pub IsDigit : ℕ → Type 0
IsDigit c = (b'0' ≤ c) × (c ≤ b'9')

decimal_onto-append : (f n : ℕ) (acc : Bytes) → decimal_onto f n acc ≡ decimal_onto f n [] ++ acc
unfolding decimal_onto
decimal_onto-append zero n acc = refl
decimal_onto-append (suc f) n acc = elim (Bool-cases (ltb n 10)) [
  | inl small ↦ rw small refl
  | inr large ↦ rw large (
      decimal_onto-append f (n / 10) ((b'0' + n % 10) ∷ acc)
      ∙ sym (append_assoc (decimal_onto f (n / 10) []) ((b'0' + n % 10) ∷ []) acc)
      ∙ ap (λ (x : Bytes). x ++ acc) (sym (decimal_onto-append f (n / 10) ((b'0' + n % 10) ∷ []))))
]

-- One more digit.
digits_value-snoc :
    (ds : Bytes) (v d : ℕ)
    → All IsDigit ds
    → IsDigit d
    → digits_value v (ds ++ d ∷ []) ≡ digits_value v ds * 10 + (d - b'0')
unfolding digits_value
digits_value-snoc [] v d h k = ground arith
digits_value-snoc (c ∷ ds) v d h k =
    ground (arith, digits_value-snoc ds (v * 10 + (c - b'0')) d h.1 k)

-- The digits are digits, there is one at least, and they are read back.
Reads : ℕ → Bytes → Type 0
Reads n ds = All IsDigit ds × (digits_value 0 ds ≡ n) × ((c : ℕ) × (cs : Bytes) × (ds ≡ c ∷ cs))

Reads-snoc :
    (n d : ℕ) (ds : Bytes) → IsDigit d → Reads n ds → Reads (n * 10 + (d - b'0')) (ds ++ d ∷ [])
unfolding Reads
Reads-snoc n d ds k (h, e, (c, cs, there)) = (
  All-append IsDigit ds (d ∷ []) h (k, tt),
  digits_value-snoc ds 0 d h k ∙ ap (λ (x : ℕ). x * 10 + (d - b'0')) e,
  (c, cs ++ d ∷ [], ap (λ (x : Bytes). x ++ d ∷ []) there),
)

decimal_onto-Reads : (f n : ℕ) → n < f → Reads n (decimal_onto f n [])
unfolding decimal_onto
decimal_onto-Reads zero n h = absurd (omega arith)
decimal_onto-Reads (suc f) n h = elim (Bool-cases (ltb n 10)) [
  | inl small ↦
      unfold Reads digits_value in
      rw small ((ground arith, tt), ground arith, (b'0' + n % 10, [], refl))
  | inr large ↦ rw large (
      subst (λ ds. Reads n ds) (sym (decimal_onto-append f (n / 10) ((b'0' + n % 10) ∷ [])))
        (subst (λ x. Reads x (decimal_onto f (n / 10) [] ++ (b'0' + n % 10) ∷ [])) (ground arith)
          (Reads-snoc (n / 10) (b'0' + n % 10) _ (omega arith, omega arith)
            (decimal_onto-Reads f (n / 10) (ground arith)))))
]

decimal-Reads : (n : ℕ) → Reads n (decimal n)
unfolding decimal
decimal-Reads n = decimal_onto-Reads (suc n) n (omega arith)

-- A decimal number has digits only.
pub decimal-IsDigit : (n : ℕ) → All IsDigit (decimal n)
decimal-IsDigit n = unfold Reads in (decimal-Reads n).0

strtoul-digits :
    (n c : ℕ) (cs : Bytes)
    → n < 2 ^ 64
    → All IsDigit (c ∷ cs)
    → digits_value 0 (c ∷ cs) ≡ n
    → strtoul (c ∷ cs) ≡ n
unfolding strtoul trim_start is_space
strtoul-digits n c cs h k e = ground arith

strtoul-read : (n : ℕ) (ds : Bytes) → n < 2 ^ 64 → Reads n ds → strtoul ds ≡ n
unfolding Reads
strtoul-read n [] h r = absurd (ground (arith, r.2.2))
strtoul-read n (c ∷ cs) h r = strtoul-digits n c cs h r.0 r.1

-- `strtoul` reads back a number that fits `unsigned long`.
pub strtoul-decimal : (n : ℕ) → n < 2 ^ 64 → strtoul (decimal n) ≡ n
unfolding Reads
strtoul-decimal n h = strtoul-read n (decimal n) h (decimal-Reads n)
