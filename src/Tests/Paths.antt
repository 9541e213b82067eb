-- ===== src/Tests/Paths.antt =====
-- Paths of one session and one feature.
use sctp_conformance.Base.{◌≡◌, arith, [], codes}
use sctp_conformance.Server.Route.{
  route, session_path, feature_path, feature_info, feature_start, feature_complete,
  feature_unsupported,
}
use sctp_conformance.Server.Paths.{IsPart, feature_url, feature_paths_lead_back}

id-IsPart : IsPart (codes "0f")
id-IsPart = (λ e. ground arith, ((ground arith, ground arith), ((ground arith, ground arith), tt)))

feature-IsPart : IsPart (codes "pr")
feature-IsPart =
    (λ e. ground arith, ((ground arith, ground arith), ((ground arith, ground arith), tt)))

feature_paths_lead_back_example :
    (route (codes "GET") (feature_url (codes "0f") (codes "pr") [])
      ≡ session_path (codes "0f") (feature_path (codes "pr") feature_info))
    × (route (codes "POST") (feature_url (codes "0f") (codes "pr") (codes "/start"))
        ≡ session_path (codes "0f") (feature_path (codes "pr") feature_start))
    × (route (codes "POST") (feature_url (codes "0f") (codes "pr") (codes "/complete"))
        ≡ session_path (codes "0f") (feature_path (codes "pr") feature_complete))
    × (route (codes "POST") (feature_url (codes "0f") (codes "pr") (codes "/unsupported"))
        ≡ session_path (codes "0f") (feature_path (codes "pr") feature_unsupported))
feature_paths_lead_back_example =
    feature_paths_lead_back (codes "0f") (codes "pr") id-IsPart feature-IsPart
