-- ===== src/Server/Framing.antt =====
-- The loops of `ReadHttpRequest` and `write_all` against the bytes as a whole.
use sctp_conformance.Base.{
  ℕ, zero, suc, ◌+◌, ◌-◌, ◌≤◌, ◌≡◌, ◌↔◌, refl, sym, ap, ◌∙◌, ◌⊎◌, arith, inl, inr, List, [], ◌∷◌,
  ◌++◌, append-nil, append_assoc, map, Option-cases, Bool-cases, leb, if◌then◌else◌, Bytes, length,
  length-append, length-take, take, drop, Option, none, some, ◌<◌, ◌^◌, codes, decimal,
}
use sctp_conformance.Text.{get_lines}
use sctp_conformance.Options.{strtoul}
use sctp_conformance.Options.Digits.{strtoul-decimal}
use sctp_conformance.Server.State.{find}
use sctp_conformance.Http.{HttpRequest}
use sctp_conformance.Socket.{Platform}
use sctp_conformance.Server.Transport.{
  Chunk, bytes, end_of_stream, read_error, ReadResult, read_ok, read_failed, reading, read_problem,
  read_body, read_rest, read_http_request, content_length, find_header_end, request_line, drop_cr,
  header_lines, is_prefix, crlf_crlf, WriteAnswer, wrote, interrupted, write_error, written,
  write_all,
}

abbrev pub flatten : List Bytes → Bytes
flatten [] = []
flatten (p ∷ ps) = p ++ flatten ps

take-append : (n : ℕ) (xs ys : Bytes) → n ≤ length xs → take n (xs ++ ys) ≡ take n xs
take-append zero xs ys h = refl
take-append (suc n) [] ys h = absurd (omega arith)
take-append (suc n) (x ∷ xs) ys h = ap (λ (zs : Bytes). x ∷ zs) (take-append n xs ys (omega arith))

-- The value of the header announces a length.
pub data Announces : Option Bytes → ℕ → Type 0 where
  silent : Announces none 0
  in_digits : (n : ℕ) → n < 2 ^ 64 → Announces (some (decimal n)) n

content_length-Announces :
    (headers : List (Bytes × Bytes)) (n : ℕ)
    → Announces (find (codes "content-length") headers) n
    → content_length headers ≡ n
unfolding content_length
content_length-Announces headers n a = go (find (codes "content-length") headers) n a
  where
    go :
        (value : Option Bytes) (n : ℕ)
        → Announces value n
        → elim value as (λ _. ℕ) [ none ↦ 0 | some text ↦ strtoul text ] ≡ n
    go none _ silent = refl
    go (some text) _ (in_digits n lt) = strtoul-decimal n lt

module _ (platform : Platform) where
  -- The second loop of `ReadHttpRequest` reads the same body however the network cuts the bytes:
  -- the first `size` of all bytes once they are there, and until then it waits.
  pub read_body-flatten :
      (size : ℕ) (body : Bytes) (pieces : List Bytes)
      → read_body platform size body (map bytes pieces) ≡ (
          if leb size (length (body ++ flatten pieces))
          then read_ok (take size (body ++ flatten pieces))
          else reading)
  unfolding read_body
  read_body-flatten size body [] =
      ap (λ (xs : Bytes). if leb size (length xs) then read_ok (take size xs) else reading)
        (sym (append-nil body))
  read_body-flatten size body (p ∷ pieces) = elim (Bool-cases (leb size (length body))) [
    | inl full ↦ ground (
      arith,
      take-append size body (p ++ flatten pieces),
      length-append body (p ++ flatten pieces),
    )
    | inr short ↦ rw short (
        read_body-flatten size (body ++ p) pieces
        ∙ ap (λ (xs : Bytes). if leb size (length xs) then read_ok (take size xs) else reading)
            (append_assoc body p (flatten pieces)))
  ]

  read_body-length :
      (size : ℕ) (chunks : List Chunk) (body b : Bytes)
      → read_body platform size body chunks ≡ read_ok b
      → length b ≡ size
  unfolding read_body read_problem
  read_body-length size [] body b h = ground (arith, length-take size body)
  read_body-length size (bytes more ∷ chunks) body b h =
      ground (arith, length-take size body, read_body-length size chunks (body ++ more) b)
  read_body-length size (end_of_stream ∷ chunks) body b h = ground (arith, length-take size body)
  read_body-length size (read_error e ∷ chunks) body b h = ground (arith, length-take size body)

  lines-cases : (xs : List Bytes) → (xs ≡ []) ⊎ ((y : Bytes) × (ys : List Bytes) × (xs ≡ y ∷ ys))
  lines-cases [] = inl refl
  lines-cases (y ∷ ys) = inr (y, ys, refl)

  body-cases :
      (x : ReadResult Bytes)
      → ((b : Bytes) × (x ≡ read_ok b)) ⊎ ((e : Bytes) × (x ≡ read_failed e)) ⊎ (x ≡ reading)
  body-cases (read_ok b) = inl (b, refl)
  body-cases (read_failed e) = inr (inl (e, refl))
  body-cases reading = inr (inr refl)

  read_rest-length :
      (i : ℕ) (raw : Bytes) (chunks : List Chunk) (r : HttpRequest)
      → read_rest platform i raw chunks ≡ read_ok r
      → length r.body ≡ content_length r.headers
  unfolding read_rest
  read_rest-length i raw chunks r h = elim (lines-cases (get_lines 10 [] (take i raw))) [
    | inl none_there ↦ absurd (ground (arith, none_there))
    | inr (line, lines, split) ↦ elim (Option-cases (request_line (drop_cr line))) [
      | inl wrong ↦ absurd (ground (arith, split, wrong))
      | inr ((method, path), good) ↦
          let headers = header_lines lines [] in
          let behind = drop i raw in
          let start = drop (if is_prefix crlf_crlf behind then 4 else 2) behind in
          elim (body-cases (read_body platform (content_length headers) start chunks)) [
            | inl (b, done) ↦
                ground (
                  arith,
                  split,
                  good,
                  done,
                  read_body-length (content_length headers) chunks start b,
                )
            | inr (inl (e, failed)) ↦ absurd (ground (arith, split, good, failed))
            | inr (inr waits) ↦ absurd (ground (arith, split, good, waits))
          ]
    ]
  ]

  accepted-length :
      (chunks : List Chunk) (raw : Bytes) (r : HttpRequest)
      → read_http_request platform raw chunks ≡ read_ok r
      → length r.body ≡ content_length r.headers
  unfolding read_http_request read_problem
  accepted-length [] raw r h = elim (Option-cases (find_header_end raw)) [
    | inl missing ↦ absurd (ground (arith, missing))
    | inr (i, found) ↦ read_rest-length i raw [] r (ground (arith, found))
  ]
  accepted-length (bytes more ∷ chunks) raw r h = elim (Option-cases (find_header_end raw)) [
    | inl missing ↦ ground (arith, missing, accepted-length chunks (raw ++ more) r)
    | inr (i, found) ↦ read_rest-length i raw (bytes more ∷ chunks) r (ground (arith, found))
  ]
  accepted-length (end_of_stream ∷ chunks) raw r h = elim (Option-cases (find_header_end raw)) [
    | inl missing ↦ absurd (ground (arith, missing))
    | inr (i, found) ↦ read_rest-length i raw (end_of_stream ∷ chunks) r (ground (arith, found))
  ]
  accepted-length (read_error e ∷ chunks) raw r h = elim (Option-cases (find_header_end raw)) [
    | inl missing ↦ absurd (ground (arith, missing))
    | inr (i, found) ↦ read_rest-length i raw (read_error e ∷ chunks) r (ground (arith, found))
  ]

  -- A request that `ReadHttpRequest` accepts has a body of exactly the length that its headers
  -- announce: the number that "content-length" has in decimal digits, below 2 ^ 64, or 0 where no
  -- header has that name.
  pub read_http_request-length :
      (chunks : List Chunk) (raw : Bytes) (r : HttpRequest) (n : ℕ)
      → read_http_request platform raw chunks ≡ read_ok r
      → Announces (find (codes "content-length") r.headers) n
      → length r.body ≡ n
  read_http_request-length chunks raw r n h a =
      accepted-length chunks raw r h ∙ content_length-Announces r.headers n a

-- How many bytes the answers take before a failure.
abbrev pub accepted : List WriteAnswer → ℕ
accepted [] = 0
accepted (interrupted ∷ answers) = accepted answers
accepted (write_error ∷ answers) = 0
accepted (wrote zero ∷ answers) = 0
accepted (wrote (suc n) ∷ answers) = suc n + accepted answers

length-drop : (n : ℕ) (xs : Bytes) → length (drop n xs) ≡ length xs - n
length-drop zero xs = omega arith
length-drop (suc n) [] = omega arith
length-drop (suc n) (x ∷ xs) = omega (arith, length-drop n xs)

-- `write_all` says that all is written exactly if the calls of `write`, up to the first that fails,
-- have taken as many bytes as there are; an interrupted call changes nothing.
pub write_all_written_iff :
    (answers : List WriteAnswer) (text : Bytes)
    → (write_all text answers ≡ written) ↔ (length text ≤ accepted answers)
unfolding write_all
write_all_written_iff [] [] = ground arith
write_all_written_iff (a ∷ answers) [] = ground arith
write_all_written_iff [] (c ∷ cs) = ground arith
write_all_written_iff (interrupted ∷ answers) (c ∷ cs) = write_all_written_iff answers (c ∷ cs)
write_all_written_iff (write_error ∷ answers) (c ∷ cs) = ground arith
write_all_written_iff (wrote zero ∷ answers) (c ∷ cs) = ground arith
write_all_written_iff (wrote (suc n) ∷ answers) (c ∷ cs) =
    let (there, back) = write_all_written_iff answers (drop n cs) in
    (λ h. omega (arith, length-drop n cs, there h), λ h. back (omega (arith, length-drop n cs)))
