-- ===== src/Page/Dashboard/Live.antt =====
-- The script of `DashboardHtml` of server/freebsd_ref/main.cpp: its rendering and its stream.
use sctp_conformance.Base.{Bytes, [], codes, ◌∷◌}
use sctp_conformance.Page.Cards.{lines}

unfoldable pub dashboard_live : Bytes
unfolding lines
dashboard_live = lines (
    codes "            </div>"
    ∷ codes "          `"
    ∷ codes "          : \"\";"
    ∷ codes "        const rfcReferences = renderRFCReferences(feature);"
    ∷ codes "        return `"
    ∷ codes "          <article class=\"feature-card\" data-tone=\"${tone}\">"
    ∷ codes "            <div class=\"feature-head\">"
    ∷ codes "              <div>"
    ∷ codes "                <h2 class=\"feature-title\">${escapeHtml(feature.title)}</h2>"
    ∷ codes
        "                <div class=\"feature-meta\">${escapeHtml(feature.category)} / ${escapeHtml(feature.id)}</div>"
    ∷ codes "              </div>"
    ∷ codes
        "              <div class=\"state-pill\" data-tone=\"${tone}\">${escapeHtml(feature.state)}</div>"
    ∷ codes "            </div>"
    ∷ codes
        "            <div class=\"feature-message\">${escapeHtml(feature.message || \"no status message\")}</div>"
    ∷ codes "            ${manualNote}"
    ∷ codes "            ${rfcReferences}"
    ∷ codes "            <div class=\"feature-time\">"
    ∷ codes "              <div>Started: ${escapeHtml(formatTimestamp(feature.started_at))}</div>"
    ∷ codes "              <div>Finished: ${escapeHtml(formatTimestamp(feature.finished_at))}</div>"
    ∷ codes "            </div>"
    ∷ codes "          </article>"
    ∷ codes "        `;"
    ∷ codes "      }).join(\"\");"
    ∷ codes "    }"
    ∷ []
    ∷ codes "    function renderSession(session) {"
    ∷ codes
        "      document.getElementById(\"title\").textContent = `SCTP session ${session.session_id}`;"
    ∷ codes "      document.title = `SCTP session ${session.session_id}`;"
    ∷ codes
        "      subtitleEl.textContent = `Realtime execution status for a single in-memory SCTP feature session.`;"
    ∷ codes "      sessionIdEl.textContent = session.session_id || sessionId;"
    ∷ codes "      agentEl.textContent = session.agent_name || \"unlabeled\";"
    ∷ codes "      environmentEl.textContent = session.environment_name || \"unlabeled\";"
    ∷ codes "      activeFeatureEl.textContent = session.active_feature_id || \"none\";"
    ∷ codes "    }"
    ∷ []
    ∷ codes "    function renderSummary(summary) {"
    ∷ codes "      const features = Array.isArray(summary.features) ? summary.features : [];"
    ∷ codes "      const activeFeature = features.find((feature) => feature.state === \"active\");"
    ∷ codes "      renderCounts(summary);"
    ∷ codes "      renderFeatures(summary);"
    ∷ codes "      activeFeatureEl.textContent = activeFeature ? activeFeature.id : \"none\";"
    ∷ codes "    }"
    ∷ []
    ∷ codes "    async function refreshSnapshot() {"
    ∷ codes
        "      const [session, summary] = await Promise.all([fetchJson(sessionPath), fetchJson(summaryPath)]);"
    ∷ codes "      renderSession(session);"
    ∷ codes "      renderSummary(summary);"
    ∷ codes "      clearError();"
    ∷ codes "    }"
    ∷ []
    ∷ codes "    function scheduleRefresh() {"
    ∷ codes "      if (refreshPromise) return;"
    ∷ codes "      refreshPromise = refreshSnapshot()"
    ∷ codes "        .catch((error) => {"
    ∷ codes "          showError(`Live refresh is waiting for the server: ${error.message}`);"
    ∷ codes "        })"
    ∷ codes "        .finally(() => {"
    ∷ codes "          refreshPromise = null;"
    ∷ codes "        });"
    ∷ codes "    }"
    ∷ []
    ∷ codes "    function connectStream() {"
    ∷ codes "      if (stream) stream.close();"
    ∷ codes "      stream = new EventSource(streamPath);"
    ∷ codes "      stream.onopen = () => setConnection(\"live\", \"live\");"
    ∷ codes "      stream.addEventListener(\"summary\", (event) => {"
    ∷ codes "        try {"
    ∷ codes "          renderSummary(JSON.parse(event.data));"
    ∷ codes "          clearError();"
    ∷ codes "          setConnection(\"live\", \"live\");"
    ∷ codes "        } catch (error) {"
    ∷ codes "          showError(`Received an invalid live update: ${error.message}`);"
    ∷ codes "        }"
    ∷ codes "      });"
    ∷ codes "      stream.onerror = () => {"
    ∷ codes "        setConnection(\"reconnecting\", \"reconnecting\");"
    ∷ codes "        scheduleRefresh();"
    ∷ codes "      };"
    ∷ codes "    }"
    ∷ []
    ∷ codes "    window.addEventListener(\"beforeunload\", () => {"
    ∷ codes "      if (stream) stream.close();"
    ∷ codes "    });"
    ∷ []
    ∷ codes "    (async () => {"
    ∷ codes "      setConnection(\"reconnecting\", \"loading\");"
    ∷ codes "      try {"
    ∷ codes "        await refreshSnapshot();"
    ∷ codes "        setConnection(\"live\", \"live\");"
    ∷ codes "      } catch (error) {"
    ∷ codes "        showError(`Failed to load session state: ${error.message}`);"
    ∷ codes "      }"
    ∷ codes "      connectStream();"
    ∷ codes "    })();"
    ∷ codes "  </script>"
    ∷ codes "</body>"
    ∷ codes "</html>"
    ∷ [])
