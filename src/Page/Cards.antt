-- ===== src/Page/Cards.antt =====
-- `SessionCard`, its lists and `render_cards` of `SessionIndexHtml` in server/freebsd_ref/main.cpp.
-- The map of sessions is walked, and cards with the same time are put, in an order that the language
-- leaves open: here in the order of the list.
use sctp_conformance.Base.{
  ℕ, Bool, not, List, [], ◌∷◌, ◌++◌, ltb, if◌then◌else◌, Bytes, codes, is_empty,
}
use sctp_conformance.Text.{html_escape}
use sctp_conformance.Contract.{concat}
use sctp_conformance.Api.Json.{iso_time}
use sctp_conformance.Server.State.{Session}
use sctp_conformance.Server.Pages.{dashboard_path}

-- The lines of a raw literal.
unfoldable pub lines : List Bytes → Bytes
lines [] = []
lines (line ∷ rest) = line ++ (b'\n' ∷ lines rest)

-- The section sign in UTF-8.
abbrev pub section_sign : Bytes
section_sign = 194 ∷ 167 ∷ []

pub record SessionCard : Type 0 where
  pub id : Bytes
  pub agent_name : Bytes
  pub environment_name : Bytes
  pub created_at : Bytes
  pub active_feature_id : Bytes
  pub dashboard_path : Bytes
  pub created_at_point : ℕ

abbrev pub is_running : SessionCard → Bool
is_running card = not (is_empty card.active_feature_id)

-- The loop over the sessions makes the cards, and keeps in one list those that are active and in
-- another those that are not.
unfoldable pub session_card : (ℕ → Bytes) → Session → SessionCard
unfolding iso_time dashboard_path
session_card utc session = record {
  id = session.id;
  agent_name = session.agent_name;
  environment_name = session.environment_name;
  created_at = iso_time utc session.created_at;
  active_feature_id = session.active_feature_id;
  dashboard_path = dashboard_path session.id;
  created_at_point = session.created_at;
}

unfoldable pub session_cards : (ℕ → Bytes) → List (Bytes × Session) → List SessionCard
unfolding session_card
session_cards utc [] = []
session_cards utc ((id, session) ∷ rest) = session_card utc session ∷ session_cards utc rest

unfoldable pub cards_where : Bool → List SessionCard → List SessionCard
cards_where active [] = []
cards_where active (card ∷ cards) =
    let rest = cards_where active cards in
    let here = if is_running card then active else not active in if here then card ∷ rest else rest

-- `newest_first`
abbrev pub newest_first : SessionCard → SessionCard → Bool
newest_first a b = ltb b.created_at_point a.created_at_point

-- `std::sort` with `newest_first`, by insertion.
unfoldable pub insert_card : SessionCard → List SessionCard → List SessionCard
insert_card card [] = card ∷ []
insert_card card (other ∷ cards) =
    if newest_first other card then other ∷ insert_card card cards else card ∷ other ∷ cards

unfoldable pub sort_cards : List SessionCard → List SessionCard
unfolding insert_card
sort_cards [] = []
sort_cards (card ∷ cards) = insert_card card (sort_cards cards)

-- `html_escape(text.empty() ? fallback : text)`
unfoldable pub shown : Bytes → Bytes → Bytes
unfolding html_escape
shown fallback text = html_escape (if is_empty text then fallback else text)

-- `active ? "active" : "idle"`
unfoldable pub card_state : SessionCard → Bytes
card_state card = if is_running card then codes "active" else codes "idle"

-- What one card is written from.
unfoldable pub card_parts : SessionCard → List Bytes
unfolding shown card_state html_escape
card_parts card =
    codes "<article class=\"session-card\" data-state=\""
    ∷ card_state card
    ∷ codes "\"><div class=\"session-card-top\"><div><h2 class=\"session-title\">"
    ∷ html_escape card.id
    ∷ codes "</h2><div class=\"session-meta\"><span>"
    ∷ shown (codes "unknown-agent") card.agent_name
    ∷ codes "</span><span>"
    ∷ shown (codes "unknown-environment") card.environment_name
    ∷ codes "</span></div></div><div class=\"session-pill\" data-state=\""
    ∷ card_state card
    ∷ codes "\">"
    ∷ card_state card
    ∷ codes
        "</div></div><div class=\"session-body\"><div class=\"row\"><span class=\"label\">Created</span><span class=\"value\">"
    ∷ shown (codes "unknown") card.created_at
    ∷ codes
        "</span></div><div class=\"row\"><span class=\"label\">Feature</span><span class=\"value\">"
    ∷ shown (codes "none") card.active_feature_id
    ∷ codes "</span></div></div><a class=\"session-link\" href=\""
    ∷ html_escape card.dashboard_path
    ∷ codes "\">Open dashboard</a></article>"
    ∷ []

-- One card.
unfoldable pub card_html : SessionCard → Bytes
unfolding concat card_parts
card_html card = concat (card_parts card)

-- The loop of `render_cards`.
unfoldable pub cards_html : List SessionCard → Bytes
unfolding card_html
cards_html [] = []
cards_html (card ∷ cards) = card_html card ++ cards_html cards

unfoldable pub render_cards : List SessionCard → Bytes → Bytes
unfolding cards_html html_escape
render_cards [] empty_text =
    codes "<div class=\"empty-state\">" ++ (html_escape empty_text ++ codes "</div>")
render_cards (card ∷ cards) empty_text =
    codes "<div class=\"session-grid\">" ++ (cards_html (card ∷ cards) ++ codes "</div>")
