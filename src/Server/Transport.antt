-- ===== src/Server/Transport.antt =====
-- `ReadHttpRequest`, `WriteHttpResponse` and `write_all`, on what `read` and `write` return in order.
use sctp_conformance.Base.{
  ℕ, zero, suc, ◌+◌, Bool, true, false, ◌&&◌, List, [], ◌∷◌, ◌++◌, Option, none, some, leb, ltb,
  ◌==◌, if◌then◌else◌, Bytes, codes, is_empty, decimal, length, take, drop,
}
use sctp_conformance.Text.{is_space, trim_start, trim, get_lines}
use sctp_conformance.Http.{HttpRequest, HttpResponse, http_status_text}
use sctp_conformance.Options.{strtoul}
use sctp_conformance.Socket.{Platform}
use sctp_conformance.Worker.{is_timeout}
use sctp_conformance.Server.State.{find, assign}

-- One return of `read`: bytes, the end of the stream, or `errno`.
pub data Chunk : Type 0 where
  bytes : Bytes → Chunk
  end_of_stream : Chunk
  read_error : ℕ → Chunk

-- The result, `error` with `false`, or a call that has not returned yet.
pub data ReadResult {ℓ} (A : Type ℓ) : Type ℓ where
  read_ok : A → ReadResult A
  read_failed : Bytes → ReadResult A
  reading : ReadResult A

abbrev pub is_prefix : Bytes → Bytes → Bool
is_prefix [] text = true
is_prefix (p ∷ ps) [] = false
is_prefix (p ∷ ps) (c ∷ cs) = p == c && is_prefix ps cs

-- `raw.find(pattern)`
unfoldable pub find_text : Bytes → Bytes → Option ℕ
find_text pattern [] = if is_empty pattern then some 0 else none
find_text pattern (c ∷ cs) =
    let later = find_text pattern cs in
    if is_prefix pattern (c ∷ cs)
    then some 0
    else elim later [ none ↦ none | some i ↦ some (suc i) ]

abbrev pub crlf_crlf : Bytes
crlf_crlf = 13 ∷ 10 ∷ 13 ∷ 10 ∷ []

-- `header_end`
unfoldable pub find_header_end : Bytes → Option ℕ
unfolding find_text
find_header_end raw = elim (find_text crlf_crlf raw) [
  | some i ↦ some i
  | none ↦ find_text (10 ∷ 10 ∷ []) raw
]

-- `if (!line.empty() && line.back() == '\r') line.pop_back();`
unfoldable pub drop_cr : Bytes → Bytes
drop_cr [] = []
drop_cr (c ∷ []) = if c == 13 then [] else c ∷ []
drop_cr (c ∷ d ∷ rest) = c ∷ drop_cr (d ∷ rest)

-- `std::tolower` in the C locale.
unfoldable pub to_lower : Bytes → Bytes
to_lower [] = []
to_lower (c ∷ cs) = (if leb b'A' c && leb c b'Z' then c + 32 else c) ∷ to_lower cs

-- The bytes in front of the first byte that passes, and the rest.
unfoldable pub split_at : (ℕ → Bool) → Bytes → Bytes × Bytes
split_at stop [] = ([], [])
split_at stop (c ∷ cs) = let r = split_at stop cs in if stop c then ([], c ∷ cs) else (c ∷ r.0, r.1)

-- `stream >> word`
unfoldable pub next_word : Bytes → Bytes × Bytes
unfolding split_at trim_start is_space
next_word text = split_at is_space (trim_start text)

-- `request_line_stream >> request.method >> request.path >> http_version`
unfoldable pub request_line : Bytes → Option (Bytes × Bytes)
unfolding next_word
request_line line =
    let method = next_word line in
    let path = next_word method.1 in
    let version = next_word path.1 in if is_empty version.0 then none else some (method.0, path.0)

-- The loop over the header lines.
unfoldable pub header_lines : List Bytes → List (Bytes × Bytes) → List (Bytes × Bytes)
unfolding drop_cr split_at to_lower trim assign
header_lines [] headers = headers
header_lines (line ∷ lines) headers =
    let (key, behind) = split_at (λ c. c == b':') (drop_cr line) in
    elim behind [
      | [] ↦ header_lines lines headers
      | colon ∷ value ↦ header_lines lines (assign (to_lower (trim key)) (trim value) headers)
    ]

unfoldable pub content_length : List (Bytes × Bytes) → ℕ
unfolding find strtoul
content_length headers = elim (find (codes "content-length") headers) [
  | none ↦ 0
  | some value ↦ strtoul value
]

module _ (platform : Platform) where
  unfoldable pub read_problem {ℓ} : {A : Type ℓ} → Bytes → Chunk → ReadResult A
  read_problem what (read_error e) = read_failed (
      (if is_timeout platform e then codes "timed out reading " else codes "failed to read ")
      ++ what)
  read_problem what _ = read_failed (codes "failed to read " ++ what)

  -- The second loop and the cut behind it.
  unfoldable pub read_body : ℕ → Bytes → List Chunk → ReadResult Bytes
  read_body size body [] = if leb size (length body) then read_ok (take size body) else reading
  read_body size body (bytes more ∷ chunks) =
      let rest = read_body size (body ++ more) chunks in
      if leb size (length body) then read_ok (take size body) else rest
  read_body size body (chunk ∷ chunks) =
      if leb size (length body)
      then read_ok (take size body)
      else read_problem (codes "HTTP body") chunk

  -- Between the loops: the request line, the headers and the bytes of the body that came with them.
  unfoldable pub read_rest : ℕ → Bytes → List Chunk → ReadResult HttpRequest
  unfolding request_line header_lines
  read_rest header_end raw chunks = elim (get_lines 10 [] (take header_end raw)) [
    | [] ↦ read_failed (codes "missing request line")
    | line ∷ lines ↦ elim (request_line (drop_cr line)) [
      | none ↦ read_failed (codes "invalid request line")
      | some (method, path) ↦
          let headers = header_lines lines [] in
          let behind = drop header_end raw in
          let body = drop (if is_prefix crlf_crlf behind then 4 else 2) behind in
          elim (read_body (content_length headers) body chunks) [
            | read_failed e ↦ read_failed e
            | reading ↦ reading
            | read_ok body ↦
                read_ok (record { method = method; path = path; body = body; headers = headers })
          ]
    ]
  ]

  -- The first loop.
  unfoldable pub read_http_request : Bytes → List Chunk → ReadResult HttpRequest
  unfolding find_header_end
  read_http_request raw [] = elim (find_header_end raw) [
    | some i ↦ read_rest i raw []
    | none ↦ reading
  ]
  read_http_request raw (bytes more ∷ chunks) =
      let rest = read_http_request (raw ++ more) chunks in
      elim (find_header_end raw) [
        | some i ↦ read_rest i raw (bytes more ∷ chunks)
        | none ↦
            if ltb 1048576 (length (raw ++ more))
            then read_failed (codes "request too large")
            else rest
      ]
  read_http_request raw (chunk ∷ chunks) = elim (find_header_end raw) [
    | some i ↦ read_rest i raw (chunk ∷ chunks)
    | none ↦ read_problem (codes "HTTP request") chunk
  ]

-- One return of `write`: bytes taken, `EINTR`, or another failure.
pub data WriteAnswer : Type 0 where
  wrote : ℕ → WriteAnswer
  interrupted : WriteAnswer
  write_error : WriteAnswer

-- The end of `write_all`, with what it has not written.
pub data Written : Type 0 where
  written : Written
  given_up : Bytes → Written
  writing : Bytes → Written

unfoldable pub write_all : Bytes → List WriteAnswer → Written
write_all [] answers = written
write_all (c ∷ cs) [] = writing (c ∷ cs)
write_all (c ∷ cs) (interrupted ∷ answers) = write_all (c ∷ cs) answers
write_all (c ∷ cs) (write_error ∷ answers) = given_up (c ∷ cs)
write_all (c ∷ cs) (wrote zero ∷ answers) = given_up (c ∷ cs)
write_all (c ∷ cs) (wrote (suc n) ∷ answers) = write_all (drop n cs) answers

unfoldable pub header_text : List (Bytes × Bytes) → Bytes
header_text [] = []
header_text ((key, value) ∷ headers) =
    key ++ (codes ": " ++ (value ++ (codes "\r\n" ++ header_text headers)))

-- What `WriteHttpResponse` writes.
unfoldable pub response_text : HttpResponse → Bytes
unfolding header_text http_status_text
response_text r =
    codes "HTTP/1.1 "
    ++ (decimal r.status
        ++ (codes " "
            ++ (http_status_text r.status
                ++ (codes "\r\n"
                    ++ (codes "Content-Type: "
                        ++ (r.content_type
                            ++ (codes "\r\n"
                                ++ (header_text r.headers
                                    ++ (codes "Content-Length: "
                                        ++ (decimal (length r.body)
                                            ++ (codes "\r\nConnection: close\r\n\r\n"
                                                ++ r.body)))))))))))
