-- ===== src/Text/Html.antt =====
-- `html_escape` and the bytes that mean something in HTML.
use sctp_conformance.Base.{ℕ, ◌≢◌, arith, [], ◌∷◌, Bytes, All, All-append}
use sctp_conformance.Text.{html_escape_byte, html_escape}

-- Neither the start nor the end of a tag, nor of an attribute's value.
abbrev pub IsHarmless : ℕ → Type 0
IsHarmless c = (c ≢ b'<') × (c ≢ b'>') × (c ≢ b'"') × (c ≢ b'\'')

html_escape_byte-All : (c : ℕ) → All IsHarmless (html_escape_byte c)
unfolding html_escape_byte
html_escape_byte-All c = ground arith

-- Whatever the text, what `html_escape` writes opens and closes no tag and ends no attribute's value.
pub html_escape-All : (text : Bytes) → All IsHarmless (html_escape text)
unfolding html_escape
html_escape-All [] = tt
html_escape-All (c ∷ cs) =
    All-append IsHarmless (html_escape_byte c) (html_escape cs) (html_escape_byte-All c)
      (html_escape-All cs)
