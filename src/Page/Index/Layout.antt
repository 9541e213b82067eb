-- ===== src/Page/Index/Layout.antt =====
-- The page of `SessionIndexHtml` of server/freebsd_ref/main.cpp: the rest in front of the counters.
use sctp_conformance.Base.{Bytes, [], codes, ◌++◌, ◌∷◌}
use sctp_conformance.Page.Cards.{lines}

unfoldable pub index_layout : Bytes
unfolding lines
index_layout =
    lines (
      []
      ∷ codes "    .session-card {"
      ∷ codes "      border-radius: 20px;"
      ∷ codes "      padding: 18px;"
      ∷ codes "      position: relative;"
      ∷ codes "      overflow: hidden;"
      ∷ codes "    }"
      ∷ []
      ∷ codes "    .session-card::before {"
      ∷ codes "      content: \"\";"
      ∷ codes "      position: absolute;"
      ∷ codes "      inset: 0 auto 0 0;"
      ∷ codes "      width: 8px;"
      ∷ codes "      background: var(--gray);"
      ∷ codes "    }"
      ∷ []
      ∷ codes "    .session-card[data-state=\"active\"]::before {"
      ∷ codes "      background: var(--amber);"
      ∷ codes "    }"
      ∷ []
      ∷ codes "    .session-card-top {"
      ∷ codes "      display: flex;"
      ∷ codes "      gap: 12px;"
      ∷ codes "      align-items: flex-start;"
      ∷ codes "      justify-content: space-between;"
      ∷ codes "    }"
      ∷ []
      ∷ codes "    .session-title {"
      ∷ codes "      font-size: 1.12rem;"
      ∷ codes "      line-height: 1.18;"
      ∷ codes "      overflow-wrap: anywhere;"
      ∷ codes "    }"
      ∷ []
      ∷ codes "    .session-meta {"
      ∷ codes "      margin-top: 10px;"
      ∷ codes "      color: var(--muted);"
      ∷ codes "      font-size: 0.76rem;"
      ∷ codes "      text-transform: uppercase;"
      ∷ codes "      letter-spacing: 0.08em;"
      ∷ codes "      display: flex;"
      ∷ codes "      gap: 10px;"
      ∷ codes "      flex-wrap: wrap;"
      ∷ codes "    }"
      ∷ []
      ∷ codes "    .session-pill {"
      ∷ codes "      flex: 0 0 auto;"
      ∷ codes "      padding: 7px 11px;"
      ∷ codes "      border-radius: 999px;"
      ∷ codes "      border: 1px solid currentColor;"
      ∷ codes "      font-size: 0.72rem;"
      ∷ codes "      text-transform: uppercase;"
      ∷ codes "      letter-spacing: 0.12em;"
      ∷ codes "      background: rgba(255, 255, 255, 0.8);"
      ∷ codes "      color: var(--gray);"
      ∷ codes "    }"
      ∷ []
      ∷ codes "    .session-pill[data-state=\"active\"] {"
      ∷ codes "      color: var(--amber);"
      ∷ codes "    }"
      ∷ []
      ∷ codes "    .session-body {"
      ∷ codes "      margin-top: 16px;"
      ∷ codes "      color: var(--muted);"
      ∷ codes "      font-size: 0.82rem;"
      ∷ codes "      line-height: 1.55;"
      ∷ codes "    }"
      ∷ []
      ∷ codes "    .row {"
      ∷ codes "      display: flex;"
      ∷ codes "      gap: 12px;"
      ∷ codes "      justify-content: space-between;"
      ∷ codes "      align-items: baseline;"
      ∷ codes "    }"
      ∷ []
      ∷ codes "    .row + .row {"
      ∷ codes "      margin-top: 8px;"
      ∷ codes "    }"
      ∷ []
      ∷ codes "    .row .label {"
      ∷ codes "      text-transform: uppercase;"
      ∷ codes "      letter-spacing: 0.08em;"
      ∷ codes "    }"
      ∷ []
      ∷ codes "    .row .value {"
      ∷ codes "      color: var(--ink);"
      ∷ codes "      text-align: right;"
      ∷ codes "      overflow-wrap: anywhere;"
      ∷ codes "    }"
      ∷ []
      ∷ codes "    .session-link {"
      ∷ codes "      display: inline-block;"
      ∷ codes "      margin-top: 18px;"
      ∷ codes "      color: var(--ink);"
      ∷ codes "      text-decoration: none;"
      ∷ codes "      border-bottom: 1px solid rgba(24, 33, 38, 0.24);"
      ∷ codes "      padding-bottom: 2px;"
      ∷ codes "    }"
      ∷ []
      ∷ codes "    .empty-state {"
      ∷ codes "      margin-top: 18px;"
      ∷ codes "      padding: 20px;"
      ∷ codes "      border-radius: 18px;"
      ∷ codes "      border: 1px dashed var(--border);"
      ∷ codes "      color: var(--muted);"
      ∷ codes "      text-align: center;"
      ∷ codes "    }"
      ∷ []
      ∷ codes "    @media (max-width: 720px) {"
      ∷ codes "      .shell { width: min(100vw - 20px, 1180px); margin-top: 10px; }"
      ∷ codes "      .hero, .section { padding: 18px; border-radius: 20px; }"
      ∷ codes "    }"
      ∷ codes "  </style>"
      ∷ codes "</head>"
      ∷ codes "<body>"
      ∷ codes "  <main class=\"shell\">"
      ∷ codes "    <section class=\"hero\">"
      ∷ codes "      <h1>SCTP session index</h1>"
      ∷ codes
          "      <p class=\"subtitle\">Live dashboard links for the FreeBSD reference server. This page refreshes every 3 seconds.</p>"
      ∷ codes "      <div class=\"hero-stats\">"
      ∷ codes "        <section class=\"stat\">"
      ∷ codes "          <div class=\"label\">Active Sessions</div>"
      ∷ [])
    ++ codes "          <div class=\"value\">"
