-- ===== src/Page/Dashboard/Script.antt =====
-- The script of `DashboardHtml` of server/freebsd_ref/main.cpp: its helpers.
use sctp_conformance.Base.{Bytes, [], codes, ◌++◌, ◌∷◌}
use sctp_conformance.Page.Cards.{lines, section_sign}

unfoldable pub dashboard_script : Bytes
unfolding lines
dashboard_script = lines (
    codes ";"
    ∷ []
    ∷ codes "    const connectionEl = document.getElementById(\"connection\");"
    ∷ codes "    const sessionIdEl = document.getElementById(\"session-id\");"
    ∷ codes "    const subtitleEl = document.getElementById(\"subtitle\");"
    ∷ codes "    const agentEl = document.getElementById(\"agent-name\");"
    ∷ codes "    const environmentEl = document.getElementById(\"environment-name\");"
    ∷ codes "    const activeFeatureEl = document.getElementById(\"active-feature\");"
    ∷ codes "    const countsEl = document.getElementById(\"counts\");"
    ∷ codes "    const featureGridEl = document.getElementById(\"feature-grid\");"
    ∷ codes "    const emptyStateEl = document.getElementById(\"empty-state\");"
    ∷ codes "    const errorBannerEl = document.getElementById(\"error-banner\");"
    ∷ []
    ∷ codes "    let stream = null;"
    ∷ codes "    let refreshPromise = null;"
    ∷ []
    ∷ codes "    function escapeHtml(value) {"
    ∷ codes
        "      return String(value ?? \"\").replace(/[&<>\"]/g, (ch) => ({ \"&\": \"&amp;\", \"<\": \"&lt;\", \">\": \"&gt;\", \"\\\"\": \"&quot;\" }[ch]));"
    ∷ codes "    }"
    ∷ []
    ∷ codes "    function formatTimestamp(value) {"
    ∷ codes "      if (!value) return \"n/a\";"
    ∷ codes "      const parsed = new Date(value);"
    ∷ codes "      return Number.isNaN(parsed.getTime()) ? value : parsed.toLocaleString();"
    ∷ codes "    }"
    ∷ []
    ∷ codes "    function toneForState(state) {"
    ∷ codes "      if (state === \"passed\") return \"green\";"
    ∷ codes "      if (state === \"active\") return \"amber\";"
    ∷ codes "      if (state === \"failed\" || state === \"timed_out\") return \"red\";"
    ∷ codes "      return \"gray\";"
    ∷ codes "    }"
    ∷ []
    ∷ codes "    function renderRFCReferences(feature) {"
    ∷ codes
        "      const refs = Array.isArray(feature.rfc_references) ? feature.rfc_references : [];"
    ∷ codes "      if (refs.length === 0) return \"\";"
    ∷ codes "      const links = refs.map((ref) => {"
    ∷ codes "        const rfcText = String(ref.rfc || \"\").trim();"
    ∷ codes "        const compactRfc = rfcText.replace(/^RFC\\s+/i, \"\").trim();"
    ∷ (codes "        const label = `${compactRfc} "
        ++ (section_sign ++ codes "${String(ref.section || \"\").trim()}`.trim();"))
    ∷ (codes "        const titleLabel = `${rfcText} "
        ++ (section_sign ++ codes "${String(ref.section || \"\").trim()}`.trim();"))
    ∷ codes "        const title = ref.title ? `${titleLabel}: ${String(ref.title)}` : titleLabel;"
    ∷ codes
        "        return `<a class=\"rfc-link\" href=\"${escapeHtml(ref.url || \"\")}\" target=\"_blank\" rel=\"noopener noreferrer\" title=\"${escapeHtml(title)}\">${escapeHtml(label)}</a>`;"
    ∷ codes "      }).join(\"\");"
    ∷ codes "      return `"
    ∷ codes "        <div class=\"rfc-row\">"
    ∷ codes "          <span>RFC</span>"
    ∷ codes "          <span class=\"rfc-links\">${links}</span>"
    ∷ codes "        </div>"
    ∷ codes "      `;"
    ∷ codes "    }"
    ∷ []
    ∷ codes "    function setConnection(state, label) {"
    ∷ codes "      connectionEl.dataset.state = state;"
    ∷ codes "      connectionEl.textContent = label;"
    ∷ codes "    }"
    ∷ []
    ∷ codes "    function showError(message) {"
    ∷ codes "      errorBannerEl.textContent = message;"
    ∷ codes "      errorBannerEl.style.display = \"block\";"
    ∷ codes "    }"
    ∷ []
    ∷ codes "    function clearError() {"
    ∷ codes "      errorBannerEl.textContent = \"\";"
    ∷ codes "      errorBannerEl.style.display = \"none\";"
    ∷ codes "    }"
    ∷ []
    ∷ codes "    async function fetchJson(path) {"
    ∷ codes "      const response = await fetch(path, { cache: \"no-store\" });"
    ∷ codes "      if (!response.ok) {"
    ∷ codes "        const text = await response.text();"
    ∷ codes "        throw new Error(text || `${response.status} ${response.statusText}`);"
    ∷ codes "      }"
    ∷ codes "      return response.json();"
    ∷ codes "    }"
    ∷ []
    ∷ codes "    function renderCounts(summary) {"
    ∷ codes "      const items = ["
    ∷ codes "        [\"Passed\", summary.passed, \"green\"],"
    ∷ codes "        [\"Active\", summary.active, \"amber\"],"
    ∷ codes "        [\"Failed\", summary.failed + summary.timed_out, \"red\"],"
    ∷ codes "        [\"Pending\", summary.pending, \"gray\"],"
    ∷ codes "        [\"Unsupported\", summary.unsupported, \"gray\"],"
    ∷ codes "      ];"
    ∷ codes "      countsEl.innerHTML = items.map(([label, value, tone]) => `"
    ∷ codes "        <section class=\"panel count\" data-tone=\"${tone}\">"
    ∷ codes "          <div class=\"label\">${escapeHtml(label)}</div>"
    ∷ codes "          <div class=\"count-number\">${escapeHtml(value)}</div>"
    ∷ codes "        </section>"
    ∷ codes "      `).join(\"\");"
    ∷ codes "    }"
    ∷ []
    ∷ codes "    function renderFeatures(summary) {"
    ∷ codes "      const features = Array.isArray(summary.features) ? summary.features : [];"
    ∷ codes "      emptyStateEl.hidden = features.length !== 0;"
    ∷ codes "      featureGridEl.innerHTML = features.map((feature) => {"
    ∷ codes "        const tone = toneForState(feature.state);"
    ∷ codes "        const manualSetup = feature.manual_setup_required === true;"
    ∷ codes "        const manualNote = manualSetup"
    ∷ codes "          ? `"
    ∷ codes "            <div class=\"note\">"
    ∷ codes
        "              Manual host setup required. This feature is skipped by default by the Go client."
    ∷ codes
        "              ${(Array.isArray(feature.manual_setup_instructions) && feature.manual_setup_instructions.length > 0)"
    ∷ codes
        "                ? `<br>${feature.manual_setup_instructions.map((line) => escapeHtml(line)).join(\"<br>\")}`"
    ∷ codes "                : \"\"}"
    ∷ [])
