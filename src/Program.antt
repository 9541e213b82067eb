-- ===== src/Program.antt =====
-- The constructor of `FeatureServer` and `main` of server/freebsd_ref/main.cpp.
pub mod Safety
use sctp_conformance.Base.{ℕ, List, Option, Bytes, if◌then◌else◌, is_empty}
use sctp_conformance.Base.Int.{ℤ}
use sctp_conformance.Catalog.{build_feature_catalog}
use sctp_conformance.Socket.{Platform, ServerOptions}
use sctp_conformance.Options.{
  default_options, ParsedOptions, options_ok, options_error, usage_exit, parse_options,
}
use sctp_conformance.Page.Index.{session_index_html}
use sctp_conformance.Page.Dashboard.{dashboard_html}
use sctp_conformance.Server.Requests.{Setting}
use sctp_conformance.Server.Startup.{Candidate, Accepted, Running, run}

unfoldable pub feature_server : (ℕ → Bytes) → Platform → ServerOptions → Setting
unfolding build_feature_catalog session_index_html dashboard_html
feature_server utc platform options = record {
  utc = utc;
  platform = platform;
  options =
      if is_empty options.sctp_advertise_addrs
      then record options { sctp_advertise_addrs = options.sctp_bind_addrs }
      else options;
  catalog = build_feature_catalog;
  index_page = session_index_html utc;
  dashboard_page = dashboard_html;
}

-- The process: the message and 1 where the arguments are wrong, the exit of `usage`, or `Run` on a
-- server with the options.
pub data Main : Type 0 where
  main_error : Bytes → Main
  main_usage : Main
  main_runs : Setting → Running → Main

unfoldable pub main :
    (ℕ → Bytes) → Platform → List Bytes → ℤ → Option (List Candidate) → List Accepted → Main
unfolding parse_options feature_server run
main utc platform args probe result returns = elim (parse_options args default_options) [
  | options_error e ↦ main_error e
  | usage_exit ↦ main_usage
  | options_ok options ↦ main_runs (feature_server utc platform options) (run probe result returns)
]
