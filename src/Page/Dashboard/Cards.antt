-- ===== src/Page/Dashboard/Cards.antt =====
-- The page of `DashboardHtml` of server/freebsd_ref/main.cpp: the rest of its style rules.
use sctp_conformance.Base.{Bytes, [], codes, ◌∷◌}
use sctp_conformance.Page.Cards.{lines}

unfoldable pub dashboard_card_style : Bytes
unfolding lines
dashboard_card_style = lines (
    codes "      font-size: 0.82rem;"
    ∷ codes "      text-transform: uppercase;"
    ∷ codes "      letter-spacing: 0.12em;"
    ∷ codes "    }"
    ∷ []
    ∷ codes "    .value {"
    ∷ codes "      margin-top: 8px;"
    ∷ codes "      font-size: 1.16rem;"
    ∷ codes "      line-height: 1.3;"
    ∷ codes "      overflow-wrap: anywhere;"
    ∷ codes "    }"
    ∷ []
    ∷ codes "    .count-grid {"
    ∷ codes "      grid-template-columns: repeat(auto-fit, minmax(120px, 1fr));"
    ∷ codes "    }"
    ∷ []
    ∷ codes "    .count {"
    ∷ codes "      position: relative;"
    ∷ codes "      overflow: hidden;"
    ∷ codes "      background: var(--panel-strong);"
    ∷ codes "    }"
    ∷ []
    ∷ codes "    .count::before {"
    ∷ codes "      content: \"\";"
    ∷ codes "      position: absolute;"
    ∷ codes "      inset: 0 auto 0 0;"
    ∷ codes "      width: 6px;"
    ∷ codes "      background: var(--gray);"
    ∷ codes "    }"
    ∷ []
    ∷ codes "    .count[data-tone=\"green\"]::before { background: var(--green); }"
    ∷ codes "    .count[data-tone=\"amber\"]::before { background: var(--amber); }"
    ∷ codes "    .count[data-tone=\"red\"]::before { background: var(--red); }"
    ∷ codes "    .count[data-tone=\"gray\"]::before { background: var(--gray); }"
    ∷ []
    ∷ codes "    .count-number {"
    ∷ codes "      margin-top: 6px;"
    ∷ codes "      font-size: 2rem;"
    ∷ codes "      font-weight: 700;"
    ∷ codes "    }"
    ∷ []
    ∷ codes "    .feature-grid {"
    ∷ codes "      margin-top: 22px;"
    ∷ codes "      grid-template-columns: repeat(auto-fit, minmax(360px, 1fr));"
    ∷ codes "    }"
    ∷ []
    ∷ codes "    .feature-card {"
    ∷ codes "      position: relative;"
    ∷ codes "      display: flex;"
    ∷ codes "      flex-direction: column;"
    ∷ codes "      border-radius: 20px;"
    ∷ codes "      padding: 18px 18px 16px;"
    ∷ codes "      overflow: hidden;"
    ∷ codes "      min-height: 0;"
    ∷ codes "    }"
    ∷ []
    ∷ codes "    .feature-card::before {"
    ∷ codes "      content: \"\";"
    ∷ codes "      position: absolute;"
    ∷ codes "      inset: 0 auto 0 0;"
    ∷ codes "      width: 8px;"
    ∷ codes "      background: var(--gray);"
    ∷ codes "    }"
    ∷ []
    ∷ codes "    .feature-card[data-tone=\"green\"]::before { background: var(--green); }"
    ∷ codes "    .feature-card[data-tone=\"amber\"]::before { background: var(--amber); }"
    ∷ codes "    .feature-card[data-tone=\"red\"]::before { background: var(--red); }"
    ∷ codes "    .feature-card[data-tone=\"gray\"]::before { background: var(--gray); }"
    ∷ []
    ∷ codes "    .feature-head {"
    ∷ codes "      display: flex;"
    ∷ codes "      gap: 12px;"
    ∷ codes "      align-items: flex-start;"
    ∷ codes "      justify-content: space-between;"
    ∷ codes "    }"
    ∷ []
    ∷ codes "    .feature-title {"
    ∷ codes "      margin: 0;"
    ∷ codes "      font-size: 1.1rem;"
    ∷ codes "      line-height: 1.2;"
    ∷ codes "    }"
    ∷ []
    ∷ codes "    .state-pill {"
    ∷ codes "      flex: 0 0 auto;"
    ∷ codes "      padding: 7px 11px;"
    ∷ codes "      border-radius: 999px;"
    ∷ codes "      font-size: 0.72rem;"
    ∷ codes "      text-transform: uppercase;"
    ∷ codes "      letter-spacing: 0.12em;"
    ∷ codes "      border: 1px solid currentColor;"
    ∷ codes "      background: rgba(255, 255, 255, 0.8);"
    ∷ codes "    }"
    ∷ []
    ∷ codes "    .state-pill[data-tone=\"green\"] { color: var(--green); }"
    ∷ codes "    .state-pill[data-tone=\"amber\"] { color: var(--amber); }"
    ∷ codes "    .state-pill[data-tone=\"red\"] { color: var(--red); }"
    ∷ codes "    .state-pill[data-tone=\"gray\"] { color: var(--gray); }"
    ∷ []
    ∷ codes "    .feature-meta {"
    ∷ codes "      margin-top: 10px;"
    ∷ codes "      color: var(--muted);"
    ∷ codes "      font-size: 0.78rem;"
    ∷ codes "      text-transform: uppercase;"
    ∷ codes "      letter-spacing: 0.08em;"
    ∷ codes "      line-height: 1.5;"
    ∷ codes "    }"
    ∷ []
    ∷ codes "    .feature-message {"
    ∷ codes "      margin-top: 14px;"
    ∷ codes "      font-size: 0.98rem;"
    ∷ codes "      line-height: 1.45;"
    ∷ codes "      max-width: 60ch;"
    ∷ codes "    }"
    ∷ []
    ∷ codes "    .rfc-row {"
    ∷ codes "      margin-top: 14px;"
    ∷ codes "      display: flex;"
    ∷ codes "      gap: 8px;"
    ∷ codes "      flex-wrap: wrap;"
    ∷ codes "      align-items: baseline;"
    ∷ [])
