-- ===== src/Server/Ids.antt =====
-- `RandomId` of server/freebsd_ref/main.cpp, on what its device draws.
use sctp_conformance.Base.{ℕ, ◌<◌, ◌≡◌, ◌≢◌, arith, List, [], ◌∷◌, Bytes, All, length}
use sctp_conformance.Text.{hex_digit}
use sctp_conformance.Server.Paths.{IsPart}

-- One character of `kAlphabet` for each draw, which is below 16.
unfoldable pub random_id : List ℕ → Bytes
unfolding hex_digit
random_id [] = []
random_id (draw ∷ draws) = hex_digit draw ∷ random_id draws

random_id-All :
    (draws : List ℕ)
    → All (λ d. d < 16) draws
    → All (λ c. (c ≢ b'/') × (c ≢ b'?')) (random_id draws)
unfolding random_id hex_digit
random_id-All [] h = tt
random_id-All (d ∷ draws) h = (ground arith, random_id-All draws h.1)

-- The id that sixteen draws below 16 make is one part of a path.
pub random_id-IsPart :
    (draws : List ℕ) → length draws ≡ 16 → All (λ d. d < 16) draws → IsPart (random_id draws)
unfolding random_id
random_id-IsPart [] n h = absurd (omega arith)
random_id-IsPart (d ∷ draws) n h = (ground arith, random_id-All (d ∷ draws) h)
