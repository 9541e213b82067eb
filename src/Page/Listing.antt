-- ===== src/Page/Listing.antt =====
-- The two lists of `SessionIndexHtml` in server/freebsd_ref/main.cpp.
use mathlib.Core.Path.{subst}
use mathlib.Core.List.{Perm, perm_middle}
use mathlib.Core.List.Perm
use sctp_conformance.Base.{
  ℕ, ◌≤◌, ◌≡◌, ◌≢◌, refl, ap, map, arith, true, false, List, [], ◌∷◌, ◌++◌, Bool-cases, inl, inr,
  Bytes, All,
}
use sctp_conformance.Server.State.{Session, Server}
use sctp_conformance.Page.Cards.{
  SessionCard, is_running, session_cards, cards_where, newest_first, insert_card, sort_cards,
  session_card,
}
use sctp_conformance.Page.Index.{active_sessions, other_sessions, session_index_html}
use sctp_conformance.Page.Headings.{Heads, index_parts-Heads}

-- No card is newer than one in front of it.
abbrev pub NewestFirst : List SessionCard → Type 0
NewestFirst [] = Unit
NewestFirst (card ∷ cards) =
    All (λ c. c.created_at_point ≤ card.created_at_point) cards × NewestFirst cards

insert_card-Perm :
    (card : SessionCard) (cards : List SessionCard) → Perm (insert_card card cards) (card ∷ cards)
unfolding insert_card
insert_card-Perm card [] = Perm.refl (card ∷ [])
insert_card-Perm card (c ∷ cards) = elim (Bool-cases (newest_first c card)) [
  | inl newer ↦
      rw (newer, insert_card)
        (Perm.trans (Perm.cons c (insert_card-Perm card cards)) (Perm.swap card c cards))
  | inr not_newer ↦ rw (not_newer, insert_card) (Perm.refl (card ∷ c ∷ cards))
]

sort_cards-Perm : (cards : List SessionCard) → Perm (sort_cards cards) cards
unfolding sort_cards
sort_cards-Perm [] = Perm.refl []
sort_cards-Perm (card ∷ cards) =
    Perm.trans (insert_card-Perm card (sort_cards cards)) (Perm.cons card (sort_cards-Perm cards))

cards_where-Perm :
    (cards : List SessionCard) → Perm (cards_where true cards ++ cards_where false cards) cards
unfolding cards_where
cards_where-Perm [] = Perm.refl []
cards_where-Perm (card ∷ cards) = elim (Bool-cases (is_running card)) [
  | inl on ↦ rw (on, cards_where) (Perm.cons card (cards_where-Perm cards))
  | inr off ↦
      rw (off, cards_where)
        (Perm.trans (perm_middle (cards_where true cards) (cards_where false cards))
          (Perm.cons card (cards_where-Perm cards)))
]

-- The feature that a card names.
abbrev pub Runs : SessionCard → Type 0
Runs c = c.active_feature_id ≢ []

abbrev pub Idles : SessionCard → Type 0
Idles c = c.active_feature_id ≡ []

cards_where-Runs : (cards : List SessionCard) → All Runs (cards_where true cards)
unfolding cards_where
cards_where-Runs [] = tt
cards_where-Runs (card ∷ cards) = elim (Bool-cases (is_running card)) [
  | inl on ↦ rw (on, cards_where) (λ e. ground (arith, e, on), cards_where-Runs cards)
  | inr off ↦ rw (off, cards_where) (cards_where-Runs cards)
]

idle-Idles : (card : SessionCard) → is_running card ≡ false → Idles card
idle-Idles card off = ground arith

cards_where-Idles : (cards : List SessionCard) → All Idles (cards_where false cards)
unfolding cards_where
cards_where-Idles [] = tt
cards_where-Idles (card ∷ cards) = elim (Bool-cases (is_running card)) [
  | inl on ↦ rw (on, cards_where) (cards_where-Idles cards)
  | inr off ↦ rw (off, cards_where) (idle-Idles card off, cards_where-Idles cards)
]

insert_card-All :
    (P : SessionCard → Type 0) (card : SessionCard) (cards : List SessionCard)
    → P card
    → All P cards
    → All P (insert_card card cards)
unfolding insert_card
insert_card-All P card [] p h = (p, tt)
insert_card-All P card (c ∷ cards) p h = ground (arith, insert_card-All P card cards p h.1)

sort_cards-All :
    (P : SessionCard → Type 0) (cards : List SessionCard) → All P cards → All P (sort_cards cards)
unfolding sort_cards
sort_cards-All P [] h = tt
sort_cards-All P (card ∷ cards) h =
    insert_card-All P card (sort_cards cards) h.0 (sort_cards-All P cards h.1)

All-weaken :
    (n m : ℕ) (cards : List SessionCard)
    → n ≤ m
    → All (λ c. c.created_at_point ≤ n) cards
    → All (λ c. c.created_at_point ≤ m) cards
All-weaken n m [] le h = tt
All-weaken n m (c ∷ cards) le h = (omega (arith, h.0), All-weaken n m cards le h.1)

insert_card-NewestFirst :
    (card : SessionCard) (cards : List SessionCard)
    → NewestFirst cards
    → NewestFirst (insert_card card cards)
unfolding insert_card
insert_card-NewestFirst card [] h = (tt, tt)
insert_card-NewestFirst card (c ∷ cards) h = elim (Bool-cases (newest_first c card)) [
  | inl newer ↦
      rw (newer, insert_card)
        (
          insert_card-All (λ x. x.created_at_point ≤ c.created_at_point) card cards (ground arith)
              h.0,
          insert_card-NewestFirst card cards h.1,
        )
  | inr not_newer ↦
      rw (not_newer, insert_card)
        (let le : c.created_at_point ≤ card.created_at_point = ground arith in
          ((le, All-weaken c.created_at_point card.created_at_point cards le h.0), h))
]

sort_cards-NewestFirst : (cards : List SessionCard) → NewestFirst (sort_cards cards)
unfolding sort_cards
sort_cards-NewestFirst [] = tt
sort_cards-NewestFirst (card ∷ cards) =
    insert_card-NewestFirst card (sort_cards cards) (sort_cards-NewestFirst cards)

-- What a card and a session are to agree on.
abbrev pub card_facts : SessionCard → Bytes × ℕ × Bytes
card_facts c = (c.id, c.created_at_point, c.active_feature_id)

abbrev pub session_facts : Bytes × Session → Bytes × ℕ × Bytes
session_facts (key, s) = (s.id, s.created_at, s.active_feature_id)

session_cards-facts :
    (utc : ℕ → Bytes) (sessions : List (Bytes × Session))
    → map card_facts (session_cards utc sessions) ≡ map session_facts sessions
unfolding session_cards session_card
session_cards-facts utc [] = refl
session_cards-facts utc ((key, s) ∷ sessions) =
    ap (λ (x : List (Bytes × ℕ × Bytes)). (s.id, s.created_at, s.active_feature_id) ∷ x)
      (session_cards-facts utc sessions)

-- The index page lists every session once. Its two lists together have, in some order, a card with
-- the id, the time and the active feature of each session; the first has those with an active
-- feature and the second those without, and both show the newest first. The page has the headings of
-- the first list, with the ids escaped, and behind them those of the second, in these orders.
pub index_lists_sessions :
    (utc : ℕ → Bytes) (srv : Server)
    → let active = active_sessions utc srv in
      let other = other_sessions utc srv in
      Perm (map card_facts (active ++ other)) (map session_facts srv.sessions)
      × All Runs active
      × All Idles other
      × NewestFirst active
      × NewestFirst other
      × Heads (session_index_html utc srv) (active ++ other)
unfolding active_sessions other_sessions session_index_html
index_lists_sessions utc srv =
    let cards = session_cards utc srv.sessions in
    let running = cards_where true cards in
    let idle = cards_where false cards in
    (
      subst
          (λ (x : List (Bytes × ℕ × Bytes)).
            Perm (map card_facts (sort_cards running ++ sort_cards idle)) x)
          (session_cards-facts utc srv.sessions)
          (Perm.map card_facts (
            Perm.trans (Perm.append (sort_cards-Perm running) (sort_cards-Perm idle))
              (cards_where-Perm cards))),
      sort_cards-All Runs running (cards_where-Runs cards),
      sort_cards-All Idles idle (cards_where-Idles cards),
      sort_cards-NewestFirst running,
      sort_cards-NewestFirst idle,
      index_parts-Heads (sort_cards running) (sort_cards idle),
    )
