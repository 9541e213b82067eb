-- ===== src/Page/Dashboard/Layout.antt =====
-- The page of `DashboardHtml` of server/freebsd_ref/main.cpp: its body in front of the id.
use sctp_conformance.Base.{Bytes, [], codes, ◌++◌, ◌∷◌}
use sctp_conformance.Page.Cards.{lines}

unfoldable pub dashboard_layout : Bytes
unfolding lines
dashboard_layout =
    lines (
      codes "      color: var(--muted);"
      ∷ codes "      font-size: 0.82rem;"
      ∷ codes
          "      font-family: \"SFMono-Regular\", Menlo, Consolas, \"Liberation Mono\", monospace;"
      ∷ codes "    }"
      ∷ []
      ∷ codes "    .rfc-links {"
      ∷ codes "      display: inline-flex;"
      ∷ codes "      gap: 8px;"
      ∷ codes "      flex-wrap: wrap;"
      ∷ codes "    }"
      ∷ []
      ∷ codes "    .rfc-link {"
      ∷ codes "      color: var(--ink);"
      ∷ codes "      text-decoration: none;"
      ∷ codes "      border-bottom: 1px solid rgba(24, 33, 38, 0.24);"
      ∷ codes "      padding-bottom: 1px;"
      ∷ codes "    }"
      ∷ []
      ∷ codes "    .rfc-link:hover {"
      ∷ codes "      border-bottom-color: currentColor;"
      ∷ codes "    }"
      ∷ []
      ∷ codes "    .feature-time {"
      ∷ codes "      margin-top: auto;"
      ∷ codes "      padding-top: 16px;"
      ∷ codes "      border-top: 1px solid rgba(24, 33, 38, 0.08);"
      ∷ codes "      color: var(--muted);"
      ∷ codes "      font-size: 0.78rem;"
      ∷ codes "      line-height: 1.5;"
      ∷ codes "      display: grid;"
      ∷ codes "      gap: 4px;"
      ∷ codes "    }"
      ∷ []
      ∷ codes "    .note {"
      ∷ codes "      margin-top: 14px;"
      ∷ codes "      color: var(--muted);"
      ∷ codes "      font-size: 0.82rem;"
      ∷ codes "    }"
      ∷ []
      ∷ codes "    .error {"
      ∷ codes "      margin-top: 18px;"
      ∷ codes "      padding: 14px 16px;"
      ∷ codes "      border-radius: 16px;"
      ∷ codes "      border: 1px solid rgba(176, 58, 46, 0.24);"
      ∷ codes "      background: rgba(176, 58, 46, 0.08);"
      ∷ codes "      color: var(--error);"
      ∷ codes "      display: none;"
      ∷ codes "    }"
      ∷ []
      ∷ codes "    .empty-state {"
      ∷ codes "      margin-top: 20px;"
      ∷ codes "      padding: 20px;"
      ∷ codes "      border-radius: 18px;"
      ∷ codes "      border: 1px dashed var(--border);"
      ∷ codes "      color: var(--muted);"
      ∷ codes "      text-align: center;"
      ∷ codes "    }"
      ∷ []
      ∷ codes "    @media (max-width: 900px) {"
      ∷ codes "      .feature-grid { grid-template-columns: 1fr; }"
      ∷ codes "    }"
      ∷ []
      ∷ codes "    @media (max-width: 720px) {"
      ∷ codes "      .shell { width: min(100vw - 20px, 1180px); margin-top: 10px; }"
      ∷ codes "      .hero { padding: 18px; border-radius: 20px; }"
      ∷ codes "      .feature-card { padding: 16px 16px 14px; }"
      ∷ codes "    }"
      ∷ codes "  </style>"
      ∷ codes "</head>"
      ∷ codes "<body>"
      ∷ codes "  <main class=\"shell\">"
      ∷ codes "    <section class=\"hero\">"
      ∷ codes "      <div class=\"hero-top\">"
      ∷ codes "        <div>"
      ∷ codes "          <h1 id=\"title\">SCTP session</h1>"
      ∷ codes "          <div class=\"subtitle\" id=\"subtitle\">Loading session metadata...</div>"
      ∷ codes
          "          <div class=\"note\">Features marked as requiring manual host setup are opt-in. The Go client skips them by default unless you pass <code>--include-manual-setup</code> or explicitly select them with <code>--features</code>.</div>"
      ∷ codes "        </div>"
      ∷ codes
          "        <div class=\"connection\" id=\"connection\" data-state=\"reconnecting\">loading</div>"
      ∷ codes "      </div>"
      ∷ []
      ∷ codes "      <div class=\"meta-grid\">"
      ∷ codes "        <section class=\"panel\">"
      ∷ codes "          <div class=\"label\">Session</div>"
      ∷ codes "          <div class=\"value\" id=\"session-id\">loading</div>"
      ∷ codes "        </section>"
      ∷ codes "        <section class=\"panel\">"
      ∷ codes "          <div class=\"label\">Agent</div>"
      ∷ codes "          <div class=\"value\" id=\"agent-name\">loading</div>"
      ∷ codes "        </section>"
      ∷ codes "        <section class=\"panel\">"
      ∷ codes "          <div class=\"label\">Environment</div>"
      ∷ codes "          <div class=\"value\" id=\"environment-name\">loading</div>"
      ∷ codes "        </section>"
      ∷ codes "        <section class=\"panel\">"
      ∷ codes "          <div class=\"label\">Active Feature</div>"
      ∷ codes "          <div class=\"value\" id=\"active-feature\">none</div>"
      ∷ codes "        </section>"
      ∷ codes "      </div>"
      ∷ []
      ∷ codes "      <div class=\"count-grid\" id=\"counts\"></div>"
      ∷ codes
          "      <div class=\"note\">Green means passed, amber means active, red means failed or timed out, and gray means pending or unsupported.</div>"
      ∷ codes "      <div class=\"error\" id=\"error-banner\"></div>"
      ∷ codes "    </section>"
      ∷ []
      ∷ codes "    <section class=\"feature-grid\" id=\"feature-grid\"></section>"
      ∷ codes
          "    <div class=\"empty-state\" id=\"empty-state\" hidden>No features are available for this session.</div>"
      ∷ codes "  </main>"
      ∷ []
      ∷ codes "  <script>"
      ∷ [])
    ++ codes "    const sessionId = "
