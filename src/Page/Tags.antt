-- ===== src/Page/Tags.antt =====
-- What the fields of a session can do to the markup of the index page.
use sctp_conformance.Base.{
  ℕ, suc, ◌+◌, ◌≡◌, ◌⊎◌, refl, sym, ap, ◌∙◌, arith, List, [], ◌∷◌, ◌++◌, ◌==◌, if◌then◌else◌, Bytes,
  codes, All, decimal, length, is_empty,
}
use sctp_conformance.Text.{html_escape}
use sctp_conformance.Text.Html.{IsHarmless, html_escape-All}
use sctp_conformance.Contract.{concat}
use sctp_conformance.Server.State.{Server}
use sctp_conformance.Page.Cards.{
  SessionCard, shown, card_state, card_parts, card_html, cards_html, render_cards,
}
use sctp_conformance.Page.Index.{active_sessions, other_sessions, session_index_html, index_parts}

-- A byte that opens or closes a tag or the value of an attribute.
abbrev pub IsMarkup : ℕ → Type 0
IsMarkup b = (b ≡ b'<') ⊎ (b ≡ b'>') ⊎ (b ≡ b'"') ⊎ (b ≡ b'\'')

-- How often a byte is in a text.
unfoldable pub count : ℕ → Bytes → ℕ
count b [] = 0
count b (c ∷ cs) = if c == b then suc (count b cs) else count b cs

-- The same number of that byte in each two parts.
abbrev Alike : ℕ → List Bytes → List Bytes → Type 0
Alike b [] [] = Unit
Alike b (p ∷ ps) (q ∷ qs) = (count b p ≡ count b q) × Alike b ps qs
Alike b _ _ = ⊥

module _ (b : ℕ) where
  count-append : (xs ys : Bytes) → count b (xs ++ ys) ≡ count b xs + count b ys
  unfolding count
  count-append [] ys = omega arith
  count-append (x ∷ xs) ys = ground (arith, count-append xs ys)

  count-both :
      (p q r s : Bytes)
      → count b p ≡ count b q
      → count b r ≡ count b s
      → count b (p ++ r) ≡ count b (q ++ s)
  count-both p q r s h k =
      count-append p r
      ∙ ap (λ (x : ℕ). x + count b r) h
      ∙ ap (λ (x : ℕ). count b q + x) k
      ∙ sym (count-append q s)

  count-concat : (ps qs : List Bytes) → Alike b ps qs → count b (concat ps) ≡ count b (concat qs)
  unfolding concat
  count-concat [] [] h = refl
  count-concat [] (q ∷ qs) h = absurd h
  count-concat (p ∷ ps) [] h = absurd h
  count-concat (p ∷ ps) (q ∷ qs) h =
      count-both p q (concat ps) (concat qs) h.0 (count-concat ps qs h.1)

  module _ (m : IsMarkup b) where
    count-harmless : (xs : Bytes) → All IsHarmless xs → count b xs ≡ 0
    unfolding count
    count-harmless [] h = refl
    count-harmless (x ∷ xs) h = ground (arith, count-harmless xs h.1)

    count-html_escape :
        (text other : Bytes) → count b (html_escape text) ≡ count b (html_escape other)
    count-html_escape text other =
        count-harmless (html_escape text) (html_escape-All text)
        ∙ sym (count-harmless (html_escape other) (html_escape-All other))

    count-shown : (f text other : Bytes) → count b (shown f text) ≡ count b (shown f other)
    unfolding shown
    count-shown f text other =
        count-html_escape (if is_empty text then f else text) (if is_empty other then f else other)

    card_state-All : (card : SessionCard) → All IsHarmless (card_state card)
    unfolding card_state
    card_state-All card = ground arith

    count-card_state : (c d : SessionCard) → count b (card_state c) ≡ count b (card_state d)
    count-card_state c d =
        count-harmless (card_state c) (card_state-All c)
        ∙ sym (count-harmless (card_state d) (card_state-All d))

    -- No field of a card adds or removes markup.
    count-card_html : (c d : SessionCard) → count b (card_html c) ≡ count b (card_html d)
    unfolding card_html card_parts
    count-card_html c d = count-concat (card_parts c) (card_parts d) (
      refl,
      (
        count-card_state c d,
        (
          refl,
          (
            count-html_escape c.id d.id,
            (
              refl,
              (
                count-shown _ c.agent_name d.agent_name,
                (
                  refl,
                  (
                    count-shown _ c.environment_name d.environment_name,
                    (
                      refl,
                      (
                        count-card_state c d,
                        (
                          refl,
                          (
                            count-card_state c d,
                            (
                              refl,
                              (
                                count-shown _ c.created_at d.created_at,
                                (
                                  refl,
                                  (
                                    count-shown _ c.active_feature_id d.active_feature_id,
                                    (
                                      refl,
                                      (
                                        count-html_escape c.dashboard_path d.dashboard_path,
                                        (refl, tt),
                                      ),
                                    ),
                                  ),
                                ),
                              ),
                            ),
                          ),
                        ),
                      ),
                    ),
                  ),
                ),
              ),
            ),
          ),
        ),
      ),
    )

    count-cards_html :
        (cs ds : List SessionCard)
        → length cs ≡ length ds
        → count b (cards_html cs) ≡ count b (cards_html ds)
    unfolding cards_html
    count-cards_html [] [] h = refl
    count-cards_html [] (d ∷ ds) h = absurd (omega arith)
    count-cards_html (c ∷ cs) [] h = absurd (omega arith)
    count-cards_html (c ∷ cs) (d ∷ ds) h =
        count-both (card_html c) (card_html d) _ _ (count-card_html c d)
          (count-cards_html cs ds (omega arith))

    count-render_cards :
        (cs ds : List SessionCard) (text : Bytes)
        → length cs ≡ length ds
        → count b (render_cards cs text) ≡ count b (render_cards ds text)
    unfolding render_cards
    count-render_cards [] [] text h = refl
    count-render_cards [] (d ∷ ds) text h = absurd (omega arith)
    count-render_cards (c ∷ cs) [] text h = absurd (omega arith)
    count-render_cards (c ∷ cs) (d ∷ ds) text h =
        count-both (codes "<div class=\"session-grid\">") _ _ _ refl
          (count-both _ _ (codes "</div>") _ (count-cards_html (c ∷ cs) (d ∷ ds) h) refl)

    -- For each of the bytes '<', '>', '"' and '\'': two index pages with as many active and as many
    -- other sessions have as many of it. So no name or id of a session, whatever an agent sends, opens
    -- or closes a tag or an attribute of the page.
    pub session_index_html-count :
        (utc : ℕ → Bytes) (srv srv' : Server)
        → length (active_sessions utc srv) ≡ length (active_sessions utc srv')
        → length (other_sessions utc srv) ≡ length (other_sessions utc srv')
        → count b (session_index_html utc srv) ≡ count b (session_index_html utc srv')
    unfolding session_index_html index_parts
    session_index_html-count utc srv srv' h k =
        let both : length (active_sessions utc srv) + length (other_sessions utc srv)
            ≡ length (active_sessions utc srv') + length (other_sessions utc srv') =
          omega (arith, h, k) in
        count-concat (index_parts (active_sessions utc srv) (other_sessions utc srv))
          (index_parts (active_sessions utc srv') (other_sessions utc srv'))
          (
            refl,
            (
              refl,
              (
                ap (λ n. count b (decimal n)) h,
                (
                  refl,
                  (
                    ap (λ n. count b (decimal n)) both,
                    (
                      refl,
                      (
                        count-render_cards (active_sessions utc srv) (active_sessions utc srv') _ h,
                        (
                          refl,
                          (
                            count-render_cards (other_sessions utc srv) (other_sessions utc srv') _
                                k,
                            (refl, tt),
                          ),
                        ),
                      ),
                    ),
                  ),
                ),
              ),
            ),
          )
