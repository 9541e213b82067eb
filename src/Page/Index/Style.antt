-- ===== src/Page/Index/Style.antt =====
-- The page of `SessionIndexHtml` of server/freebsd_ref/main.cpp: its first style rules.
use sctp_conformance.Base.{Bytes, [], codes, ◌∷◌}
use sctp_conformance.Page.Cards.{lines}

unfoldable pub index_style : Bytes
unfolding lines
index_style = lines (
    codes "<!doctype html>"
    ∷ codes "<html lang=\"en\">"
    ∷ codes "<head>"
    ∷ codes "  <meta charset=\"utf-8\">"
    ∷ codes "  <meta name=\"viewport\" content=\"width=device-width, initial-scale=1\">"
    ∷ codes "  <meta http-equiv=\"refresh\" content=\"3\">"
    ∷ codes "  <title>SCTP Session Index</title>"
    ∷ codes "  <style>"
    ∷ codes "    :root {"
    ∷ codes "      --bg: #f4efe6;"
    ∷ codes "      --panel: rgba(255, 252, 247, 0.92);"
    ∷ codes "      --panel-strong: #fffaf2;"
    ∷ codes "      --ink: #182126;"
    ∷ codes "      --muted: #59636c;"
    ∷ codes "      --border: rgba(24, 33, 38, 0.12);"
    ∷ codes "      --shadow: 0 28px 70px rgba(40, 31, 12, 0.12);"
    ∷ codes "      --green: #2b7a4b;"
    ∷ codes "      --amber: #b87912;"
    ∷ codes "      --gray: #74818a;"
    ∷ codes "    }"
    ∷ []
    ∷ codes "    * { box-sizing: border-box; }"
    ∷ []
    ∷ codes "    body {"
    ∷ codes "      margin: 0;"
    ∷ codes "      min-height: 100vh;"
    ∷ codes
        "      font-family: \"Iowan Old Style\", \"Palatino Linotype\", \"Book Antiqua\", Palatino, Georgia, serif;"
    ∷ codes "      color: var(--ink);"
    ∷ codes "      background:"
    ∷ codes
        "        radial-gradient(circle at top left, rgba(184, 121, 18, 0.16), transparent 32%),"
    ∷ codes
        "        radial-gradient(circle at top right, rgba(43, 122, 75, 0.12), transparent 28%),"
    ∷ codes "        linear-gradient(180deg, #fcf7ef 0%, var(--bg) 55%, #ebe4d8 100%);"
    ∷ codes "    }"
    ∷ []
    ∷ codes "    .shell {"
    ∷ codes "      width: min(1180px, calc(100vw - 32px));"
    ∷ codes "      margin: 24px auto 40px;"
    ∷ codes "    }"
    ∷ []
    ∷ codes "    .hero,"
    ∷ codes "    .section,"
    ∷ codes "    .session-card {"
    ∷ codes "      background: var(--panel);"
    ∷ codes "      border: 1px solid var(--border);"
    ∷ codes "      box-shadow: var(--shadow);"
    ∷ codes "      backdrop-filter: blur(10px);"
    ∷ codes "    }"
    ∷ []
    ∷ codes "    .hero,"
    ∷ codes "    .section {"
    ∷ codes "      padding: 24px;"
    ∷ codes "      border-radius: 24px;"
    ∷ codes "    }"
    ∷ []
    ∷ codes "    .section {"
    ∷ codes "      margin-top: 18px;"
    ∷ codes "    }"
    ∷ []
    ∷ codes "    h1,"
    ∷ codes "    h2,"
    ∷ codes "    .subtitle,"
    ∷ codes "    .session-meta,"
    ∷ codes "    .session-body,"
    ∷ codes "    .refresh-note,"
    ∷ codes "    .empty-state {"
    ∷ codes "      margin: 0;"
    ∷ codes "    }"
    ∷ []
    ∷ codes "    h1 {"
    ∷ codes "      font-size: clamp(2rem, 4.8vw, 3.2rem);"
    ∷ codes "      line-height: 0.96;"
    ∷ codes "      letter-spacing: -0.04em;"
    ∷ codes "    }"
    ∷ []
    ∷ codes "    .subtitle,"
    ∷ codes "    .refresh-note,"
    ∷ codes "    .session-meta,"
    ∷ codes "    .session-body,"
    ∷ codes "    .empty-state {"
    ∷ codes
        "      font-family: \"SFMono-Regular\", Menlo, Consolas, \"Liberation Mono\", monospace;"
    ∷ codes "    }"
    ∷ []
    ∷ codes "    .subtitle,"
    ∷ codes "    .refresh-note {"
    ∷ codes "      color: var(--muted);"
    ∷ codes "      font-size: 0.92rem;"
    ∷ codes "    }"
    ∷ []
    ∷ codes "    .subtitle {"
    ∷ codes "      margin-top: 10px;"
    ∷ codes "    }"
    ∷ []
    ∷ codes "    .refresh-note {"
    ∷ codes "      margin-top: 16px;"
    ∷ codes "    }"
    ∷ []
    ∷ codes "    .hero-stats {"
    ∷ codes "      display: grid;"
    ∷ codes "      gap: 16px;"
    ∷ codes "      grid-template-columns: repeat(auto-fit, minmax(160px, 1fr));"
    ∷ codes "      margin-top: 20px;"
    ∷ codes "    }"
    ∷ []
    ∷ codes "    .stat {"
    ∷ codes "      padding: 16px 18px;"
    ∷ codes "      border-radius: 18px;"
    ∷ codes "      background: var(--panel-strong);"
    ∷ codes "      border: 1px solid var(--border);"
    ∷ codes "    }"
    ∷ []
    ∷ codes "    .stat .label {"
    ∷ codes "      color: var(--muted);"
    ∷ codes "      font-size: 0.8rem;"
    ∷ codes "      text-transform: uppercase;"
    ∷ codes "      letter-spacing: 0.12em;"
    ∷ codes "    }"
    ∷ []
    ∷ codes "    .stat .value {"
    ∷ codes "      margin-top: 8px;"
    ∷ codes "      font-size: 2rem;"
    ∷ codes "      line-height: 1;"
    ∷ codes "    }"
    ∷ []
    ∷ codes "    .section-title {"
    ∷ codes "      font-size: 1.3rem;"
    ∷ codes "      line-height: 1.1;"
    ∷ codes "    }"
    ∷ []
    ∷ codes "    .section-copy {"
    ∷ codes "      margin-top: 8px;"
    ∷ codes "      color: var(--muted);"
    ∷ codes "      font-size: 0.92rem;"
    ∷ codes "    }"
    ∷ []
    ∷ codes "    .session-grid {"
    ∷ codes "      margin-top: 18px;"
    ∷ codes "      display: grid;"
    ∷ codes "      gap: 16px;"
    ∷ codes "      grid-template-columns: repeat(auto-fit, minmax(280px, 1fr));"
    ∷ codes "    }"
    ∷ [])
