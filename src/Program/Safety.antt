-- ===== src/Program/Safety.antt =====
-- The program as a whole: the server with its own catalog and pages.
use sctp_conformance.Base.{ℕ, Option, Bytes}
use sctp_conformance.Http.{HttpRequest}
use sctp_conformance.Catalog.Ids.{build_feature_catalog-CatalogOk}
use sctp_conformance.Socket.{Platform, ServerOptions}
use sctp_conformance.Server.State.{Server}
use sctp_conformance.Server.Invariant.{Lands}
use sctp_conformance.Server.Creation.{CatalogOk}
use sctp_conformance.Server.Handling.{ServerOk}
use sctp_conformance.Server.Transport.{ReadResult}
use sctp_conformance.Server.Requests.{Surroundings, Setting}
use sctp_conformance.Server.Reach.{Reach, Reach-ServerOk}
use sctp_conformance.Server.Stream.{handle_client}
use sctp_conformance.Server.Serving.{Served, handle_client-Served}
use sctp_conformance.Program.{feature_server}

module _ (utc : ℕ → Bytes) (platform : Platform) (options : ServerOptions) where
  abbrev program : Setting
  program = feature_server utc platform options

  program-CatalogOk : CatalogOk (feature_server utc platform options).catalog
  unfolding feature_server
  program-CatalogOk = build_feature_catalog-CatalogOk

  -- The program with its own catalog and pages, started with any options: in every server that
  -- requests and ends of workers lead to, no handler reads a session or an execution that is not
  -- there, the sessions stay in order, and a client is served by what the calls on its socket return.
  -- A failed timeout is answered with 500; a request that cannot be read with 408, where the head
  -- timed out, or 400; a stream is started for a session that is there and refused with 404 for any
  -- other; and every other request gets the answer of `HandleRequest`.
  pub program_serves_clients :
      (env : Surroundings) (receive send : Option ℕ) (r : ReadResult HttpRequest) (srv : Server)
      → Reach program srv
      → Lands
          (λ p.
            ServerOk (feature_server utc platform options).catalog p.0
            × Served (feature_server utc platform options) env receive send r srv p)
          (handle_client (feature_server utc platform options) env receive send r srv)
  program_serves_clients env receive send r srv reach =
      handle_client-Served program env receive send r srv program-CatalogOk
        (Reach-ServerOk program srv program-CatalogOk reach)
