-- ===== src/Page/Dashboard.antt =====
-- `DashboardHtml` of server/freebsd_ref/main.cpp.
pub mod Style
pub mod Cards
pub mod Layout
pub mod Script
pub mod Live
use sctp_conformance.Base.{List, [], ◌∷◌, ◌++◌, Bytes, codes}
use sctp_conformance.Text.{json_quote}
use sctp_conformance.Contract.{concat}
use sctp_conformance.Server.State.{Session}
use sctp_conformance.Server.Pages.{session_api_path, summary_path, summary_stream_path}
use sctp_conformance.Page.Cards.{lines}
use sctp_conformance.Page.Dashboard.Style.{dashboard_style}
use sctp_conformance.Page.Dashboard.Cards.{dashboard_card_style}
use sctp_conformance.Page.Dashboard.Layout.{dashboard_layout}
use sctp_conformance.Page.Dashboard.Script.{dashboard_script}
use sctp_conformance.Page.Dashboard.Live.{dashboard_live}

-- The constants of the script.
unfoldable pub dashboard_constants : Session → Bytes
unfolding concat json_quote session_api_path summary_path summary_stream_path lines
dashboard_constants session = concat (
    json_quote session.id
    ∷ (lines (codes ";" ∷ []) ++ codes "    const sessionPath = ")
    ∷ json_quote (session_api_path session.id)
    ∷ (lines (codes ";" ∷ []) ++ codes "    const summaryPath = ")
    ∷ json_quote (summary_path session.id)
    ∷ (lines (codes ";" ∷ []) ++ codes "    const streamPath = ")
    ∷ json_quote (summary_stream_path session.id)
    ∷ [])

unfoldable pub dashboard_html : Session → Bytes
unfolding concat dashboard_style dashboard_card_style dashboard_layout dashboard_constants
    dashboard_script dashboard_live
dashboard_html session = concat (
    dashboard_style
    ∷ dashboard_card_style
    ∷ dashboard_layout
    ∷ dashboard_constants session
    ∷ dashboard_script
    ∷ dashboard_live
    ∷ [])
