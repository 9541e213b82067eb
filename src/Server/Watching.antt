-- ===== src/Server/Watching.antt =====
-- The event stream of server/freebsd_ref/main.cpp on a server that other requests change meanwhile.
use mathlib.Core.Path.{subst}
use mathlib.Core.Option
use sctp_conformance.Base.{
  ℕ, ◌-◌, ◌*◌, ◌<◌, ◌≡◌, refl, ap, ◌∙◌, arith, Bool, true, false, inl, inr, List, [], ◌∷◌, some,
  Bytes, codes, bytes_eq, leb, Option-cases, Bool-cases, All,
}
use sctp_conformance.Server.Tables.{All-find}
use sctp_conformance.Server.Creation.{CatalogOk}
use sctp_conformance.Server.Invariant.{SessionOk, Lands-elim}
use sctp_conformance.Server.Safety.{summary_json-SessionOk}
use sctp_conformance.Http.{HttpRequest, response}
use sctp_conformance.Session.{second}
use sctp_conformance.Server.State.{Session, Server, Scope, find, assign}
use sctp_conformance.Server.Pages.{summary_path, summary_json}
use sctp_conformance.Server.Paths.{IsPart, session_paths_lead_back}
use sctp_conformance.Server.Requests.{
  Surroundings, Setting, plain, handle_route, handle_request, on_session, with_session,
}
use sctp_conformance.Server.Reach.{Step, request, Reach, next, Reach-ServerOk}
use sctp_conformance.Server.Framing.{flatten}
use sctp_conformance.Server.Stream.{
  Stream, Round, sse_event, keep_alive, stream_round, after_round, stream_loop, stream_summary,
}
use sctp_conformance.Server.Events.{events, changes, IsLine, stream_loop_events}

-- The request for the summary of a session.
abbrev pub asks_summary : Bytes → HttpRequest
asks_summary id = record { method = codes "GET"; path = summary_path id; body = []; headers = [] }

-- Texts written at some of the rounds. The last text in front was written at the time `last`, and a
-- round writes nothing only if that is less than two seconds ago.
pub data Paced : ℕ → List Round → List Bytes → Type 0 where
  over : {last : ℕ} → Paced last [] []
  speaks :
      {last : ℕ} (r : Round) {rounds : List Round} (text : Bytes) {texts : List Bytes}
      → Paced r.now rounds texts
      → Paced last (r ∷ rounds) (text ∷ texts)
  silent :
      {last : ℕ} (r : Round) {rounds : List Round} {texts : List Bytes}
      → r.now - last < 2 * second
      → Paced last rounds texts
      → Paced last (r ∷ rounds) texts

-- A round that has written.
spoken :
    (r : Round) (rounds : List Round) (last : ℕ) (text : Bytes) (later : List Bytes × Bool)
    → r.wrote ≡ true
    → Paced r.now rounds later.0
    → Paced last (r ∷ rounds) (after_round r.wrote (some text) later).0
unfolding after_round
spoken r rounds last text later h p =
    subst (Paced last (r ∷ rounds)) (go r.wrote h) (speaks {last = last} r text p)
  where
    go : (wrote : Bool) → wrote ≡ true → text ∷ later.0 ≡ (after_round wrote (some text) later).0
    go true h = refl
    go false h = absurd (ground arith)

stream_loop-Paced :
    (rounds : List Round) (st : Stream)
    → All (λ r. (r.wrote ≡ true) × IsLine r.summary) rounds
    → Paced st.last_heartbeat rounds (stream_loop st rounds).0
unfolding stream_loop stream_round
stream_loop-Paced [] st h = over
stream_loop-Paced (r ∷ rounds) st h = elim (Bool-cases (bytes_eq r.summary st.last_summary)) [
  | inr other ↦
      let st' : Stream = record { last_summary = r.summary; last_heartbeat = r.now } in
      rw (other, stream_loop)
        (spoken r rounds st.last_heartbeat (sse_event (codes "summary") r.summary) _ h.0.0
          (stream_loop-Paced rounds st' h.1))
  | inl same ↦ elim (Bool-cases (leb (2 * second) (r.now - st.last_heartbeat))) [
    | inl due ↦
        let st' : Stream = record st { last_heartbeat = r.now } in
        rw (same, stream_loop)
          (rw (due, stream_loop)
            (spoken r rounds st.last_heartbeat keep_alive _ h.0.0
              (stream_loop-Paced rounds st' h.1)))
    | inr early ↦
        let soon : r.now - st.last_heartbeat < 2 * second = ground (arith, early) in
        rw (same, stream_loop)
          (rw (early, stream_loop)
            (unfold after_round in silent r soon (stream_loop-Paced rounds st h.1)))
  ]
]

module _ (setting : Setting) (id : Bytes) where
  -- The rounds of the stream of a session, with requests and ends of workers between them.
  pub data Watch : Server → List Round → Server → Type 0 where
    ends : {srv : Server} → Watch srv [] srv
    meanwhile :
        {srv mid srv' : Server} {rounds : List Round}
        → Step setting srv mid
        → Watch mid rounds srv'
        → Watch srv rounds srv'
    round :
        {srv mid srv' : Server} {rounds : List Round} (env : Surroundings) (text : Bytes) (now : ℕ)
        (wrote : Bool)
        → stream_summary setting env id srv ≡ some (mid, text)
        → Watch mid rounds srv'
        → Watch srv (record { summary = text; now = now; wrote = wrote } ∷ rounds) srv'

  -- In some server that is reached, a request for the summary is answered with what the round found.
  abbrev pub Answered : Round → Type 0
  Answered r =
      (env : Surroundings) × (at after : Server) × Reach setting at
      × (handle_request setting env (asks_summary id) at
          ≡ some (after, plain (response 200 r.summary)))

  -- A round finds what a request is answered, and changes the server as it does.
  stream_summary-answers :
      (env : Surroundings) (srv mid : Server) (text : Bytes)
      → IsPart id
      → stream_summary setting env id srv ≡ some (mid, text)
      → handle_request setting env (asks_summary id) srv ≡ some (mid, plain (response 200 text))
  unfolding handle_request handle_route with_session on_session stream_summary
  stream_summary-answers env srv mid text part h =
      ap (λ r. handle_route setting env r [] srv) (session_paths_lead_back id part).2
      ∙ elim (Option-cases (find id (srv.sessions))) [
        | inl missing ↦ absurd (ground (arith, missing))
        | inr (session, found) ↦
            let c : Scope = record { session = session; closed = srv.closed } in
            elim (Option-cases (summary_json setting.utc env.clock setting.catalog c)) [
              | inl missing ↦ absurd (ground (arith, found, missing))
              | inr ((d, written), summed) ↦
                  let left : Server = record {
                    sessions = assign id d.session srv.sessions;
                    closed = d.closed;
                  } in
                  let same : some (left, written) ≡ some (mid, text) =
                    ground (arith, found, summed) in
                  rw (found, with_session)
                    (rw (summed, with_session)
                      (ap (Option.map (λ (p : Server × Bytes). (p.0, plain (response 200 p.1))))
                        same))
            ]
      ]

  -- In a server that is reached, a round finds a summary, if the session is there.
  stream_summary-found :
      (env : Surroundings) (srv : Server) (session : Session)
      → CatalogOk setting.catalog
      → Reach setting srv
      → find id srv.sessions ≡ some session
      → (p : Server × Bytes) × (stream_summary setting env id srv ≡ some p)
  unfolding stream_summary
  stream_summary-found env srv session k reach found =
      let c : Scope = record { session = session; closed = srv.closed } in
      let good : SessionOk setting.catalog session =
        All-find (λ s. SessionOk setting.catalog s.1) id session (srv.sessions)
          (Reach-ServerOk setting srv k reach) found in
      let (q, f, later) =
        Lands-elim (λ (q : Scope × Bytes). SessionOk setting.catalog (q.0.session))
          (summary_json setting.utc env.clock setting.catalog c)
          (summary_json-SessionOk setting.catalog setting.utc env.clock c good) in
      (
        (record { sessions = assign id q.0.session srv.sessions; closed = q.0.closed }, q.1),
        rw (found, stream_summary) (rw (f, stream_summary) refl),
      )

  -- A client that watches a session of a server, while requests and ends of workers go on, and whose
  -- stream is written without a failure, with summaries of one line: each round found what a request
  -- for the summary is answered in some server that is reached, and the server that is left is
  -- reached too; read as a browser reads events, the client is told exactly the summaries that differ
  -- from the one before, in order; and no round writes nothing two seconds or more after the text
  -- before it. The ids of the catalog are not empty and differ, and the session is there in the end:
  -- then one more round finds a summary, too.
  pub stream_tells_summaries :
      (srv srv' : Server) (rounds : List Round) (st : Stream) (session : Session)
      → CatalogOk setting.catalog
      → IsPart id
      → Reach setting srv
      → Watch srv rounds srv'
      → All (λ r. (r.wrote ≡ true) × IsLine r.summary) rounds
      → find id srv'.sessions ≡ some session
      → Reach setting srv'
        × All Answered rounds
        × ((env : Surroundings)
            → (p : Server × Bytes) × (stream_summary setting env id srv' ≡ some p))
        × (events (flatten (stream_loop st rounds).0) ≡ changes st.last_summary rounds)
        × Paced st.last_heartbeat rounds (stream_loop st rounds).0
  stream_tells_summaries srv srv' rounds st session k part reach w h found =
      let (there, answered) = watched srv srv' rounds reach w in
      (
        there,
        answered,
        λ env. stream_summary-found env srv' session k there found,
        stream_loop_events rounds st h,
        stream_loop-Paced rounds st h,
      )
    where
      watched :
          (srv srv' : Server) (rounds : List Round)
          → Reach setting srv
          → Watch srv rounds srv'
          → Reach setting srv' × All Answered rounds
      watched srv srv' rounds reach ends = (reach, tt)
      watched srv srv' rounds reach (meanwhile {mid = mid} s w) =
          watched mid srv' rounds (next reach s) w
      watched srv srv' (r ∷ rounds) reach (round {mid = mid} env text now wrote h w) =
          let answer = stream_summary-answers env srv mid text part h in
          let (there, answered) =
            watched mid srv' rounds
              (next reach (request env (asks_summary id) (plain (response 200 text)) answer)) w in
          (there, ((env, srv, mid, reach, answer), answered))
