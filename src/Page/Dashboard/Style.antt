-- ===== src/Page/Dashboard/Style.antt =====
-- The page of `DashboardHtml` of server/freebsd_ref/main.cpp: its first style rules.
use sctp_conformance.Base.{Bytes, [], codes, ◌∷◌}
use sctp_conformance.Page.Cards.{lines}

unfoldable pub dashboard_style : Bytes
unfolding lines
dashboard_style = lines (
    codes "<!doctype html>"
    ∷ codes "<html lang=\"en\">"
    ∷ codes "<head>"
    ∷ codes "  <meta charset=\"utf-8\">"
    ∷ codes "  <meta name=\"viewport\" content=\"width=device-width, initial-scale=1\">"
    ∷ codes "  <title>SCTP Traffic Light Dashboard</title>"
    ∷ codes "  <style>"
    ∷ codes "    :root {"
    ∷ codes "      --bg: #f4efe6;"
    ∷ codes "      --panel: rgba(255, 252, 247, 0.92);"
    ∷ codes "      --panel-strong: #fffaf2;"
    ∷ codes "      --ink: #182126;"
    ∷ codes "      --muted: #59636c;"
    ∷ codes "      --border: rgba(24, 33, 38, 0.12);"
    ∷ codes "      --shadow: 0 28px 70px rgba(40, 31, 12, 0.12);"
    ∷ codes "      --green: #2b7a4b;"
    ∷ codes "      --amber: #b87912;"
    ∷ codes "      --red: #b03a2e;"
    ∷ codes "      --gray: #74818a;"
    ∷ codes "      --live: #14532d;"
    ∷ codes "      --reconnecting: #8a5a11;"
    ∷ codes "      --error: #8b1e16;"
    ∷ codes "    }"
    ∷ []
    ∷ codes "    * { box-sizing: border-box; }"
    ∷ []
    ∷ codes "    body {"
    ∷ codes "      margin: 0;"
    ∷ codes "      min-height: 100vh;"
    ∷ codes
        "      font-family: \"Iowan Old Style\", \"Palatino Linotype\", \"Book Antiqua\", Palatino, Georgia, serif;"
    ∷ codes "      color: var(--ink);"
    ∷ codes "      background:"
    ∷ codes
        "        radial-gradient(circle at top left, rgba(184, 121, 18, 0.16), transparent 32%),"
    ∷ codes
        "        radial-gradient(circle at top right, rgba(43, 122, 75, 0.12), transparent 28%),"
    ∷ codes "        linear-gradient(180deg, #fcf7ef 0%, var(--bg) 55%, #ebe4d8 100%);"
    ∷ codes "    }"
    ∷ []
    ∷ codes "    .shell {"
    ∷ codes "      width: min(1180px, calc(100vw - 32px));"
    ∷ codes "      margin: 24px auto 40px;"
    ∷ codes "    }"
    ∷ []
    ∷ codes "    .hero,"
    ∷ codes "    .panel,"
    ∷ codes "    .feature-card {"
    ∷ codes "      background: var(--panel);"
    ∷ codes "      border: 1px solid var(--border);"
    ∷ codes "      box-shadow: var(--shadow);"
    ∷ codes "      backdrop-filter: blur(10px);"
    ∷ codes "    }"
    ∷ []
    ∷ codes "    .hero {"
    ∷ codes "      padding: 24px;"
    ∷ codes "      border-radius: 24px;"
    ∷ codes "    }"
    ∷ []
    ∷ codes "    .hero-top {"
    ∷ codes "      display: flex;"
    ∷ codes "      gap: 16px;"
    ∷ codes "      align-items: flex-start;"
    ∷ codes "      justify-content: space-between;"
    ∷ codes "      flex-wrap: wrap;"
    ∷ codes "    }"
    ∷ []
    ∷ codes "    h1 {"
    ∷ codes "      margin: 0;"
    ∷ codes "      font-size: clamp(2rem, 5vw, 3.4rem);"
    ∷ codes "      line-height: 0.94;"
    ∷ codes "      letter-spacing: -0.04em;"
    ∷ codes "    }"
    ∷ []
    ∷ codes "    .subtitle,"
    ∷ codes "    .note,"
    ∷ codes "    .feature-meta,"
    ∷ codes "    .feature-time,"
    ∷ codes "    .empty-state,"
    ∷ codes "    .error {"
    ∷ codes
        "      font-family: \"SFMono-Regular\", Menlo, Consolas, \"Liberation Mono\", monospace;"
    ∷ codes "    }"
    ∷ []
    ∷ codes "    .subtitle {"
    ∷ codes "      margin-top: 10px;"
    ∷ codes "      color: var(--muted);"
    ∷ codes "      font-size: 0.94rem;"
    ∷ codes "    }"
    ∷ []
    ∷ codes "    .connection {"
    ∷ codes "      padding: 10px 14px;"
    ∷ codes "      border-radius: 999px;"
    ∷ codes "      border: 1px solid currentColor;"
    ∷ codes "      font-size: 0.8rem;"
    ∷ codes "      text-transform: uppercase;"
    ∷ codes "      letter-spacing: 0.12em;"
    ∷ codes "      background: rgba(255, 255, 255, 0.75);"
    ∷ codes "    }"
    ∷ []
    ∷ codes "    .connection[data-state=\"live\"] { color: var(--live); }"
    ∷ codes "    .connection[data-state=\"reconnecting\"] { color: var(--reconnecting); }"
    ∷ codes "    .connection[data-state=\"error\"] { color: var(--error); }"
    ∷ []
    ∷ codes "    .meta-grid,"
    ∷ codes "    .count-grid,"
    ∷ codes "    .feature-grid {"
    ∷ codes "      display: grid;"
    ∷ codes "      gap: 16px;"
    ∷ codes "    }"
    ∷ []
    ∷ codes "    .meta-grid,"
    ∷ codes "    .count-grid {"
    ∷ codes "      margin-top: 18px;"
    ∷ codes "      grid-template-columns: repeat(auto-fit, minmax(160px, 1fr));"
    ∷ codes "    }"
    ∷ []
    ∷ codes "    .panel {"
    ∷ codes "      padding: 16px 18px;"
    ∷ codes "      border-radius: 18px;"
    ∷ codes "    }"
    ∷ []
    ∷ codes "    .label {"
    ∷ codes "      color: var(--muted);"
    ∷ [])
