-- ===== src/Tests/Pages.antt =====
-- The index page on two sessions, one of which has markup in its names.
use mathlib.Core.List.{Perm}
use sctp_conformance.Base.{◌≡◌, refl, inl, [], ◌∷◌, ◌++◌, codes, All}
use sctp_conformance.Server.State.{Session, Server}
use sctp_conformance.Page.Cards.{session_cards, session_card, cards_where, sort_cards, insert_card}
use sctp_conformance.Page.Index.{active_sessions, other_sessions, session_index_html}
use sctp_conformance.Base.{map}
use sctp_conformance.Page.Headings.{Heads}
use sctp_conformance.Page.Listing.{
  card_facts, session_facts, Runs, Idles, NewestFirst, index_lists_sessions,
}
use sctp_conformance.Page.Tags.{count, session_index_html-count}
use sctp_conformance.Tests.Data.{no_utc}

abbrev plain_session : Session
plain_session = record {
  id = codes "s";
  agent_name = codes "agent";
  environment_name = [];
  created_at = 5;
  features = [];
  active_feature_id = [];
}

abbrev marked_session : Session
marked_session = record plain_session {
  agent_name = codes "<script>alert('x')</script>";
  environment_name = codes "\"><b>";
}

abbrev plain_server : Server
plain_server = record { sessions = (codes "s", plain_session) ∷ []; closed = [] }

abbrev marked_server : Server
marked_server = record { sessions = (codes "s", marked_session) ∷ []; closed = [] }

session_index_html-count_example :
    count b'<' (session_index_html no_utc plain_server)
    ≡ count b'<' (session_index_html no_utc marked_server)
unfolding active_sessions other_sessions session_cards session_card cards_where sort_cards
    insert_card
session_index_html-count_example =
    session_index_html-count b'<' (inl refl) no_utc plain_server marked_server refl refl

index_lists_sessions_example :
    let active = active_sessions no_utc marked_server in
    let other = other_sessions no_utc marked_server in
    Perm (map card_facts (active ++ other)) (map session_facts marked_server.sessions)
    × All Runs active
    × All Idles other
    × NewestFirst active
    × NewestFirst other
    × Heads (session_index_html no_utc marked_server) (active ++ other)
index_lists_sessions_example = index_lists_sessions no_utc marked_server
