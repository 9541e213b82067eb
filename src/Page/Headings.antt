-- ===== src/Page/Headings.antt =====
-- The headings of the cards in the index page of server/freebsd_ref/main.cpp.
use mathlib.Core.Path.{subst}
use sctp_conformance.Base.{
  ◌≡◌, sym, ap, ◌∙◌, append_assoc, append-nil, decimal, length, ◌+◌, codes, List, [], ◌∷◌, ◌++◌,
  Bytes,
}
use sctp_conformance.Text.{html_escape}
use sctp_conformance.Contract.{concat}
use sctp_conformance.Page.Cards.{
  SessionCard, card_html, card_parts, card_state, cards_html, render_cards,
}
use sctp_conformance.Page.Index.Style.{index_style}
use sctp_conformance.Page.Index.Layout.{index_layout}
use sctp_conformance.Page.Index.{index_between, index_active, index_other, index_parts}

-- The heading of a session.
abbrev pub heading : Bytes → Bytes
heading id = codes "<h2 class=\"session-title\">" ++ (html_escape id ++ codes "</h2>")

-- A page has the headings of the cards, one behind the other.
abbrev pub Heads : Bytes → List SessionCard → Type 0
Heads page [] = Unit
Heads page (c ∷ cards) =
    (before after : Bytes) × (page ≡ before ++ (heading c.id ++ after)) × Heads after cards

Heads-before :
    (x page : Bytes) (cards : List SessionCard) → Heads page cards → Heads (x ++ page) cards
Heads-before x page [] h = tt
Heads-before x page (c ∷ cards) (a, b, e, h) =
    (x ++ a, b, ap (λ (y : Bytes). x ++ y) e ∙ sym (append_assoc x a (heading c.id ++ b)), h)

-- A page behind another.
Heads-append :
    (x y : Bytes) (cards others : List SessionCard)
    → Heads x cards
    → Heads y others
    → Heads (x ++ y) (cards ++ others)
Heads-append x y [] others h g = Heads-before x y others g
Heads-append x y (c ∷ cards) others (a, b, e, h) g = (
  a,
  b ++ y,
  ap (λ (z : Bytes). z ++ y) e
      ∙ append_assoc a (heading c.id ++ b) y
      ∙ ap (λ (z : Bytes). a ++ z) (append_assoc (heading c.id) b y),
  Heads-append b y cards others h g,
)

Heads-after : (x y : Bytes) (cards : List SessionCard) → Heads x cards → Heads (x ++ y) cards
Heads-after x y cards h = subst (Heads (x ++ y)) (append-nil cards) (Heads-append x y cards [] h tt)

card_html-Heads : (c : SessionCard) → Heads (card_html c) (c ∷ [])
unfolding card_html card_parts concat
card_html-Heads c =
    Heads-before (codes "<article class=\"session-card\" data-state=\"") _ (c ∷ []) (
      Heads-before (card_state c) _ (c ∷ []) (
        codes "\"><div class=\"session-card-top\"><div>",
        _,
        ap
            (λ (y : Bytes).
              codes "\"><div class=\"session-card-top\"><div><h2 class=\"session-title\">" ++ y)
            (sym (append_assoc (html_escape c.id) (codes "</h2>") _)),
        tt,
      ))

cards_html-Heads : (cards : List SessionCard) → Heads (cards_html cards) cards
unfolding cards_html
cards_html-Heads [] = tt
cards_html-Heads (c ∷ cards) =
    Heads-append (card_html c) (cards_html cards) (c ∷ []) cards (card_html-Heads c)
      (cards_html-Heads cards)

render_cards-Heads :
    (cards : List SessionCard) (empty_text : Bytes) → Heads (render_cards cards empty_text) cards
unfolding render_cards
render_cards-Heads [] empty_text = tt
render_cards-Heads (c ∷ cards) empty_text =
    Heads-before (codes "<div class=\"session-grid\">") _ (c ∷ cards) (
      Heads-after (cards_html (c ∷ cards)) (codes "</div>") (c ∷ cards)
        (cards_html-Heads (c ∷ cards)))

pub index_parts-Heads :
    (active other : List SessionCard) → Heads (concat (index_parts active other)) (active ++ other)
unfolding concat index_parts
index_parts-Heads active other =
    let all = active ++ other in
    Heads-before index_style _ all (
      Heads-before index_layout _ all (
        Heads-before (decimal (length active)) _ all (
          Heads-before index_between _ all (
            Heads-before (decimal (length active + length other)) _ all (
              Heads-before index_active _ all (
                Heads-append (render_cards active _) _ active other (render_cards-Heads active _) (
                  Heads-before index_other _ other
                    (Heads-after (render_cards other _) _ other (render_cards-Heads other _)))))))))
