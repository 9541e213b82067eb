-- ===== src/Server/Serving.antt =====
-- How `HandleClient` of server/freebsd_ref/main.cpp serves a client.
use sctp_conformance.Base.{
  ap, ℕ, List, ◌∷◌, ◌≢◌, ◌⊎◌, arith, bytes_eq, bytes_eq_iff, ◌≡◌, refl, inl, inr, [], Option, none,
  some, Bytes, codes, Option-cases,
}
use sctp_conformance.Http.{HttpRequest, refusal}
use sctp_conformance.Server.State.{Server, find}
use sctp_conformance.Server.Tables.{Has}
use sctp_conformance.Server.Invariant.{Lands, Lands-elim}
use sctp_conformance.Server.Creation.{CatalogOk}
use sctp_conformance.Server.Handling.{ServerOk, handle_request-ServerOk}
use sctp_conformance.Server.Route.{split_path}
use sctp_conformance.Server.Transport.{ReadResult, read_ok, read_failed, reading}
use sctp_conformance.Server.Requests.{Surroundings, Setting, Reply, plain, handle_request}
use sctp_conformance.Server.Stream.{
  Client, answers, streams, reads, set_http_timeout, stream_of, read_status, serve_request,
  handle_client,
}

-- The path of the event stream of a session.
abbrev pub AsksStream : HttpRequest → Bytes → Type 0
AsksStream r id =
    (r.method ≡ codes "GET")
    × (split_path r.path
        ≡ codes "v1" ∷ codes "sessions" ∷ id ∷ codes "summary" ∷ codes "stream" ∷ [])

stream_of-some :
    (r : HttpRequest) (id : Bytes) (parts : List Bytes)
    → stream_of r.method parts ≡ some id
    → (r.method ≡ codes "GET")
      × (parts ≡ codes "v1" ∷ codes "sessions" ∷ id ∷ codes "summary" ∷ codes "stream" ∷ [])
unfolding stream_of
stream_of-some r id (a ∷ b ∷ i ∷ c ∷ d ∷ []) h = ground (
  arith,
  bytes_eq_iff r.method (codes "GET"),
  bytes_eq_iff a (codes "v1"),
  bytes_eq_iff b (codes "sessions"),
  bytes_eq_iff c (codes "summary"),
  bytes_eq_iff d (codes "stream"),
)
stream_of-some r id _ h = absurd (ground arith)

stream_of-asked :
    (r : HttpRequest) (id : Bytes)
    → AsksStream r id
    → stream_of r.method (split_path r.path) ≡ some id
unfolding stream_of bytes_eq
stream_of-asked r id (get, path) = rw (get, path) refl

module _ (setting : Setting) (env : Surroundings) where
  -- What becomes of a request that could be read: the answer of `HandleRequest`, unless it asks for
  -- the stream of a session; that is started if the session is there, and refused if not.
  abbrev pub Serves : HttpRequest → Server → Server × Client → Type 0
  Serves r srv (srv', client) =
      ((reply : Reply) × (client ≡ answers reply)
        × (handle_request setting env r srv ≡ some (srv', reply))
        × ((id : Bytes) → ¬ AsksStream r id))
      ⊎ ((id : Bytes) × AsksStream r id
          × (srv' ≡ srv)
          × (client ≡ streams id)
          × Has id srv.sessions)
      ⊎ ((id : Bytes) × AsksStream r id
          × (srv' ≡ srv)
          × (client ≡ answers (plain (refusal 404 (codes "unknown session"))))
          × (find id srv.sessions ≡ none))

  -- How a client is served, by what the calls on its socket return.
  abbrev pub Served :
      Option ℕ → Option ℕ → ReadResult HttpRequest → Server → Server × Client → Type 0
  Served (some e) send r srv (srv', client) =
      (srv' ≡ srv) × (client ≡ answers (plain (refusal 500 (setting.platform.strerror e))))
  Served none (some e) r srv (srv', client) =
      (srv' ≡ srv) × (client ≡ answers (plain (refusal 500 (setting.platform.strerror e))))
  Served none none reading srv (srv', client) = (srv' ≡ srv) × (client ≡ reads)
  Served none none (read_failed e) srv (srv', client) =
      (srv' ≡ srv)
      × (((e ≡ codes "timed out reading HTTP request") × (client ≡ answers (plain (refusal 408 e))))
          ⊎ ((e ≢ codes "timed out reading HTTP request")
              × (client ≡ answers (plain (refusal 400 e)))))
  Served none none (read_ok r) srv p = Serves r srv p

  serve_request-Serves :
      (r : HttpRequest) (srv : Server)
      → CatalogOk setting.catalog
      → ServerOk setting.catalog srv
      → Lands (λ p. ServerOk setting.catalog p.0 × Serves r srv p) (serve_request setting env r srv)
  unfolding serve_request
  serve_request-Serves r srv k h = elim (Option-cases (stream_of r.method (split_path r.path))) [
    | inl other ↦
        let (q, f, later) =
          Lands-elim (λ (q : Server × Reply). ServerOk setting.catalog q.0)
            (handle_request setting env r srv) (handle_request-ServerOk setting env r srv k h) in
        rw (other, serve_request)
          (rw (f, serve_request)
            (
              later,
              inl (q.1, refl, refl, λ id asks. absurd (cc (stream_of-asked r id asks, other))),
            ))
    | inr (id, wanted) ↦
        let asks : AsksStream r id = stream_of-some r id (split_path r.path) wanted in
        elim (Option-cases (find id (srv.sessions))) [
          | inl missing ↦
              rw (wanted, serve_request)
                (rw (missing, serve_request) (h, inr (inr (id, asks, refl, refl, missing))))
          | inr (session, found) ↦
              rw (wanted, serve_request)
                (rw (found, serve_request) (h, inr (inl (id, asks, refl, refl, (session, found)))))
        ]
  ]

  read_status-cases :
      (e : Bytes)
      → ((e ≡ codes "timed out reading HTTP request") × (read_status e ≡ 408))
        ⊎ ((e ≢ codes "timed out reading HTTP request") × (read_status e ≡ 400))
  unfolding read_status
  read_status-cases e = ground (arith, bytes_eq_iff e (codes "timed out reading HTTP request"))

  failed_read :
      (e : Bytes) (srv : Server)
      → Served none none (read_failed e) srv (srv, answers (plain (refusal (read_status e) e)))
  failed_read e srv = elim (read_status-cases e) [
    | inl (late, is) ↦ (refl, inl (late, ap (λ (n : ℕ). answers (plain (refusal n e))) is))
    | inr (other, is) ↦ (refl, inr (other, ap (λ (n : ℕ). answers (plain (refusal n e))) is))
  ]

  -- With a catalog whose ids are not empty and differ, on a server whose sessions are in order:
  -- `HandleClient` serves every client as `Served` says, whatever the calls on its socket return, and
  -- leaves the sessions in order.
  pub handle_client-Served :
      (receive send : Option ℕ) (r : ReadResult HttpRequest) (srv : Server)
      → CatalogOk setting.catalog
      → ServerOk setting.catalog srv
      → Lands
          (λ p. ServerOk setting.catalog p.0 × Served receive send r srv p)
          (handle_client setting env receive send r srv)
  unfolding handle_client set_http_timeout
  handle_client-Served (some e) send r srv k h = (h, (refl, refl))
  handle_client-Served none (some e) r srv k h = (h, (refl, refl))
  handle_client-Served none none (read_ok r) srv k h = serve_request-Serves r srv k h
  handle_client-Served none none (read_failed e) srv k h = (h, failed_read e srv)
  handle_client-Served none none reading srv k h = (h, (refl, refl))
