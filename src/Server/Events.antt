-- ===== src/Server/Events.antt =====
-- The event stream of server/freebsd_ref/main.cpp as its client reads it.
use sctp_conformance.Base.{
  ℕ, ◌-◌, ◌*◌, ◌≡◌, ◌≢◌, refl, sym, ap, ◌∙◌, Bool, true, false, List, [], ◌∷◌, ◌++◌, append-nil,
  append_assoc, Option, none, some, Bool-cases, inl, inr, ◌⊎◌, leb, if◌then◌else◌, Bytes, codes,
  bytes_eq, is_empty, All, drop,
}
use sctp_conformance.Text.{get_lines}
use sctp_conformance.Text.Split.{get_lines-append, get_lines-delimiter, get_lines-end}
use sctp_conformance.Session.{second}
use sctp_conformance.Server.Transport.{is_prefix}
use sctp_conformance.Server.Framing.{flatten}
use sctp_conformance.Server.Stream.{
  data_lines, sse_event, Stream, keep_alive, stream_round, Round, after_round, stream_loop,
}

-- The lines of an event stream, as a browser's EventSource reads them: the name and the data since
-- the last empty line, at which an event with data is handed out. Other lines are skipped.
abbrev read_lines : Bytes → Option Bytes → List Bytes → List (Bytes × Bytes)
read_lines name held [] = []
read_lines name none ([] ∷ lines) = read_lines [] none lines
read_lines name (some text) ([] ∷ lines) = (name, text) ∷ read_lines [] none lines
read_lines name held ((c ∷ cs) ∷ lines) =
    let skipped = read_lines name held lines in
    let named = read_lines (drop 6 cs) held lines in
    let first = read_lines name (some (drop 5 cs)) lines in
    let more = λ (text : Bytes). read_lines name (some (text ++ (b'\n' ∷ drop 5 cs))) lines in
    if is_prefix (codes "event: ") (c ∷ cs)
    then named
    else if is_prefix (codes "data: ") (c ∷ cs)
    then elim held [ none ↦ first | some text ↦ more text ]
    else skipped

-- The events in the bytes of a stream.
abbrev pub events : Bytes → List (Bytes × Bytes)
events stream = read_lines [] none (get_lines b'\n' [] stream)

-- The text of a summary: one line that is not empty.
abbrev pub IsLine : Bytes → Type 0
IsLine text = (text ≢ []) × All (λ c. c ≢ b'\n') text

-- The summaries that differ from the one before.
abbrev pub changes : Bytes → List Round → List (Bytes × Bytes)
changes last [] = []
changes last (r ∷ rounds) =
    let same = changes last rounds in
    let changed = (codes "summary", r.summary) ∷ changes r.summary rounds in
    if bytes_eq r.summary last then same else changed

events-keep_alive : (rest : Bytes) → events (keep_alive ++ rest) ≡ events rest
unfolding get_lines
events-keep_alive rest = refl

get_lines-line : (text : Bytes) → IsLine text → get_lines b'\n' [] text ≡ text ∷ []
get_lines-line text h =
    ap (get_lines b'\n' []) (sym (append-nil text))
    ∙ get_lines-append b'\n' text [] [] h.1
    ∙ get_lines-end b'\n' text h.0

-- What `WriteSseEvent` writes behind the name.
data_text :
    (text rest : Bytes)
    → IsLine text
    → (if is_empty text
          then codes "data:\n\n"
          else data_lines (get_lines b'\n' [] text) ++ (b'\n' ∷ []))
        ++ rest
      ≡ codes "data: " ++ (text ++ b'\n' ∷ b'\n' ∷ rest)
unfolding data_lines
data_text [] rest h = absurd (h.0 refl)
data_text (c ∷ cs) rest h =
    rw (get_lines-line (c ∷ cs) h, data_lines)
      (ap (λ (x : Bytes). codes "data: " ++ x)
        (append_assoc ((c ∷ cs) ++ b'\n' ∷ []) (b'\n' ∷ []) rest
          ∙ append_assoc (c ∷ cs) (b'\n' ∷ []) (b'\n' ∷ rest)))

line_and_end :
    (text rest : Bytes)
    → IsLine text
    → get_lines b'\n' [] (codes "data: " ++ (text ++ b'\n' ∷ b'\n' ∷ rest))
      ≡ (codes "data: " ++ text) ∷ [] ∷ get_lines b'\n' [] rest
unfolding get_lines
line_and_end text rest h =
    get_lines-append b'\n' text (codes "data: ") (b'\n' ∷ b'\n' ∷ rest) h.1
    ∙ get_lines-delimiter b'\n' (codes "data: " ++ text) (b'\n' ∷ rest)

events-sse_event :
    (text rest : Bytes)
    → IsLine text
    → events (sse_event (codes "summary") text ++ rest) ≡ (codes "summary", text) ∷ events rest
unfolding sse_event
events-sse_event text rest h =
    ap (λ (x : Bytes). read_lines (codes "summary") none (get_lines b'\n' [] x))
      (data_text text rest h)
    ∙ ap (read_lines (codes "summary") none) (line_and_end text rest h)

-- What a round writes, and what it keeps of the last summary.
Round-cases : Bytes → Stream → Option Bytes × Stream → Type 0
Round-cases summary st (text, st') =
    ((bytes_eq summary st.last_summary ≡ false)
      × (text ≡ some (sse_event (codes "summary") summary))
      × (st'.last_summary ≡ summary))
    ⊎ ((bytes_eq summary st.last_summary ≡ true)
        × ((text ≡ some keep_alive) ⊎ (text ≡ none))
        × (st'.last_summary ≡ st.last_summary))

stream_round-cases :
    (summary : Bytes) (now : ℕ) (st : Stream) → Round-cases summary st (stream_round summary now st)
unfolding Round-cases stream_round
stream_round-cases summary now st = elim (Bool-cases (bytes_eq summary st.last_summary)) [
  | inr other ↦ rw (other, stream_round) (inl (refl, refl, refl))
  | inl same ↦ elim (Bool-cases (leb (2 * second) (now - st.last_heartbeat))) [
    | inl due ↦ rw (same, stream_round) (rw (due, stream_round) (inr (refl, inl refl, refl)))
    | inr quiet ↦ rw (same, stream_round) (rw (quiet, stream_round) (inr (refl, inr refl, refl)))
  ]
]

after_round-events :
    (r : Round) (st : Stream) (p : Option Bytes × Stream) (later : List Bytes × Bool)
    (rounds : List Round)
    → r.wrote ≡ true
    → IsLine r.summary
    → Round-cases r.summary st p
    → events (flatten later.0) ≡ changes p.1.last_summary rounds
    → events (flatten (after_round r.wrote p.0 later).0) ≡ changes st.last_summary (r ∷ rounds)
unfolding Round-cases after_round
after_round-events r st (text, st') later rounds wrote line (inl (other, written, kept)) h =
    rw (written, after_round)
      (rw (wrote, after_round)
        (rw other (
          events-sse_event r.summary (flatten later.0) line
          ∙ ap (λ (x : List (Bytes × Bytes)). (codes "summary", r.summary) ∷ x)
              (h ∙ ap (λ (x : Bytes). changes x rounds) kept))))
after_round-events r st (text, st') later rounds wrote line (inr (same, inl written, kept)) h =
    rw (written, after_round)
      (rw (wrote, after_round)
        (rw same
          (events-keep_alive (flatten later.0) ∙ h ∙ ap (λ (x : Bytes). changes x rounds) kept)))
after_round-events r st (text, st') later rounds wrote line (inr (same, inr quiet, kept)) h =
    rw (quiet, after_round) (rw same (h ∙ ap (λ (x : Bytes). changes x rounds) kept))

-- Where every write succeeds and every summary is one line that is not empty: a client that reads
-- the bytes of the stream as a browser reads events is told exactly the summaries that differ from
-- the one before, in order, each under the name "summary", and no heartbeat shows.
pub stream_loop_events :
    (rounds : List Round) (st : Stream)
    → All (λ r. (r.wrote ≡ true) × IsLine r.summary) rounds
    → events (flatten (stream_loop st rounds).0) ≡ changes st.last_summary rounds
unfolding stream_loop
stream_loop_events [] st h = unfold get_lines in refl
stream_loop_events (r ∷ rounds) st h =
    after_round-events r st (stream_round r.summary r.now st) _ rounds h.0.0 h.0.1
      (stream_round-cases r.summary r.now st) (stream_loop_events rounds _ h.1)
