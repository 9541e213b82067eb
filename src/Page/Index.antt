-- ===== src/Page/Index.antt =====
-- `SessionIndexHtml` of server/freebsd_ref/main.cpp.
pub mod Style
pub mod Layout
use sctp_conformance.Base.{
  ℕ, ◌+◌, Bool, true, false, List, [], ◌∷◌, ◌++◌, Bytes, codes, length, decimal,
}
use sctp_conformance.Contract.{concat}
use sctp_conformance.Server.State.{Server}
use sctp_conformance.Page.Cards.{
  lines, SessionCard, session_cards, cards_where, sort_cards, render_cards,
}
use sctp_conformance.Page.Index.Style.{index_style}
use sctp_conformance.Page.Index.Layout.{index_layout}

unfoldable pub active_sessions : (ℕ → Bytes) → Server → List SessionCard
unfolding session_cards cards_where sort_cards
active_sessions utc srv = sort_cards (cards_where true (session_cards utc srv.sessions))

unfoldable pub other_sessions : (ℕ → Bytes) → Server → List SessionCard
unfolding session_cards cards_where sort_cards
other_sessions utc srv = sort_cards (cards_where false (session_cards utc srv.sessions))

-- The text between the counters and the lists.
unfoldable pub index_between : Bytes
unfolding lines
index_between =
    lines (
      codes "</div>"
      ∷ codes "        </section>"
      ∷ codes "        <section class=\"stat\">"
      ∷ codes "          <div class=\"label\">Known Sessions</div>"
      ∷ [])
    ++ codes "          <div class=\"value\">"

unfoldable pub index_active : Bytes
unfolding lines
index_active =
    lines (
      codes "</div>"
      ∷ codes "        </section>"
      ∷ codes "      </div>"
      ∷ codes
          "      <p class=\"refresh-note\">Open a dashboard link to watch a single session update in realtime.</p>"
      ∷ codes "    </section>"
      ∷ []
      ∷ codes "    <section class=\"section\">"
      ∷ codes "      <h2 class=\"section-title\">Active Sessions</h2>"
      ∷ codes
          "      <p class=\"section-copy\">Sessions with an in-flight feature are listed here first.</p>"
      ∷ [])
    ++ codes "      "

unfoldable pub index_other : Bytes
unfolding lines
index_other =
    lines (
      []
      ∷ codes "    </section>"
      ∷ []
      ∷ codes "    <section class=\"section\">"
      ∷ codes "      <h2 class=\"section-title\">Other Sessions</h2>"
      ∷ codes
          "      <p class=\"section-copy\">Idle or completed sessions stay available until the server restarts.</p>"
      ∷ [])
    ++ codes "      "

unfoldable pub index_end : Bytes
unfolding lines
index_end =
    lines ([] ∷ codes "    </section>" ∷ codes "  </main>" ∷ codes "</body>" ∷ [])
    ++ codes "</html>"

-- What the page is written from.
unfoldable pub index_parts : List SessionCard → List SessionCard → List Bytes
unfolding index_style index_layout render_cards decimal index_between index_active index_other
    index_end
index_parts active other =
    index_style
    ∷ index_layout
    ∷ decimal (length active)
    ∷ index_between
    ∷ decimal (length active + length other)
    ∷ index_active
    ∷ render_cards active (codes "No sessions are active right now.")
    ∷ index_other
    ∷ render_cards other (codes "No additional sessions are currently stored in memory.")
    ∷ index_end
    ∷ []

unfoldable pub session_index_html : (ℕ → Bytes) → Server → Bytes
unfolding concat index_parts active_sessions other_sessions
session_index_html utc srv = concat (index_parts (active_sessions utc srv) (other_sessions utc srv))
