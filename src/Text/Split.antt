-- ===== src/Text/Split.antt =====
-- `split` against `join`.
use sctp_conformance.Base.{
  ℕ, ◌≡◌, ◌≢◌, refl, sym, ap, ◌∙◌, arith, false, List, [], ◌∷◌, ◌++◌, append-nil, append_assoc,
  Bytes, All,
}
use sctp_conformance.Text.{trim, get_lines, nonempty_trimmed, split, join_from, join}

-- A value that `split` hands out as it is: not empty, without space around it, and without the
-- delimiter.
abbrev pub IsItem : ℕ → Bytes → Type 0
IsItem delimiter value = (value ≢ []) × (trim value ≡ value) × All (λ c. c ≢ delimiter) value

module _ (delimiter : ℕ) where
  pub get_lines-append :
      (value current rest : Bytes)
      → All (λ c. c ≢ delimiter) value
      → get_lines delimiter current (value ++ rest) ≡ get_lines delimiter (current ++ value) rest
  unfolding get_lines
  get_lines-append [] current rest h =
      ap (λ (x : Bytes). get_lines delimiter x rest) (sym (append-nil current))
  get_lines-append (c ∷ cs) current rest h =
      ground
        (arith, get_lines-append cs (current ++ c ∷ []) rest h.1, append_assoc current (c ∷ []) cs)

  pub get_lines-end : (value : Bytes) → value ≢ [] → get_lines delimiter value [] ≡ value ∷ []
  unfolding get_lines
  get_lines-end [] h = absurd (h refl)
  get_lines-end (c ∷ cs) h = refl

  pub get_lines-delimiter :
      (value rest : Bytes)
      → get_lines delimiter value (delimiter ∷ rest) ≡ value ∷ get_lines delimiter [] rest
  unfolding get_lines
  get_lines-delimiter value rest = ground arith

  get_lines-join_from :
      (value : Bytes) (values : List Bytes)
      → IsItem delimiter value
      → All (IsItem delimiter) values
      → get_lines delimiter [] (value ++ join_from false (delimiter ∷ []) values) ≡ value ∷ values
  unfolding join_from
  get_lines-join_from value [] h k = get_lines-append value [] [] h.2 ∙ get_lines-end value h.0
  get_lines-join_from value (w ∷ values) h k =
      get_lines-append value [] _ h.2
      ∙ get_lines-delimiter value (w ++ join_from false (delimiter ∷ []) values)
      ∙ ap (λ (x : List Bytes). value ∷ x) (get_lines-join_from w values k.0 k.1)

  nonempty_trimmed-items :
      (values : List Bytes) → All (IsItem delimiter) values → nonempty_trimmed values ≡ values
  unfolding nonempty_trimmed
  nonempty_trimmed-items [] h = refl
  nonempty_trimmed-items (v ∷ values) h = ground (arith, nonempty_trimmed-items values h.1)

  -- `split` on what `join` writes with the same delimiter gives the values back, if none is empty,
  -- has space around it, or has the delimiter in it.
  pub split-join :
      (values : List Bytes)
      → All (IsItem delimiter) values
      → split (join values (delimiter ∷ [])) delimiter ≡ values
  unfolding split join join_from get_lines
  split-join [] h = unfold nonempty_trimmed in refl
  split-join (v ∷ values) h =
      ap nonempty_trimmed (get_lines-join_from v values h.0 h.1)
      ∙ nonempty_trimmed-items (v ∷ values) h
