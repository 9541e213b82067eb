-- ===== src/Server/Paths.antt =====
-- The paths that the server writes and documents, under `HandleRequest`.
use sctp_conformance.Base.{
  ◌≡◌, ◌≢◌, refl, sym, ap, ◌∙◌, arith, List, [], ◌∷◌, ◌++◌, append-nil, append_assoc, Bytes, codes,
  bytes_eq, All,
}
use sctp_conformance.Server.Pages.{dashboard_path, session_api_path, summary_path}
use sctp_conformance.Server.Route.{
  path_parts, split_path, feature_start, feature_complete, feature_unsupported, feature_info,
  dashboard, session_info, session_summary, feature_path, session_path, feature_route,
  session_route, dashboard_of, parts_route, api_route, route,
}

-- One part of a path: not empty, and without a slash or a question mark.
abbrev pub IsPart : Bytes → Type 0
IsPart word = (word ≢ []) × All (λ c. (c ≢ b'/') × (c ≢ b'?')) word

path_parts-append :
    (word current rest : Bytes)
    → All (λ c. (c ≢ b'/') × (c ≢ b'?')) word
    → path_parts current (word ++ rest) ≡ path_parts (current ++ word) rest
unfolding path_parts
path_parts-append [] current rest h =
    ap (λ (w : Bytes). path_parts w rest) (sym (append-nil current))
path_parts-append (c ∷ word) current rest h =
    ground (
      arith,
      path_parts-append word (current ++ c ∷ []) rest h.1,
      append_assoc current (c ∷ []) word,
    )

-- A part, and what is behind its slash.
path_parts-slash :
    (word rest : Bytes)
    → IsPart word
    → path_parts [] (word ++ b'/' ∷ rest) ≡ word ∷ path_parts [] rest
unfolding path_parts
path_parts-slash word rest (ne, h) = path_parts-append word [] (b'/' ∷ rest) h ∙ ground arith

path_parts-end : (word : Bytes) → IsPart word → path_parts [] word ≡ word ∷ []
unfolding path_parts
path_parts-end word (ne, h) =
    ap (path_parts []) (sym (append-nil word)) ∙ path_parts-append word [] [] h ∙ ground arith

-- The three paths of a session that the server hands out route to that session's dashboard, data
-- and summary, for every id that is one part of a path.
pub session_paths_lead_back :
    (id : Bytes)
    → IsPart id
    → (route (codes "GET") (dashboard_path id) ≡ session_path id dashboard)
      × (route (codes "GET") (session_api_path id) ≡ session_path id session_info)
      × (route (codes "GET") (summary_path id) ≡ session_path id session_summary)
unfolding route dashboard_of api_route parts_route session_route split_path path_parts bytes_eq
    dashboard_path session_api_path summary_path
session_paths_lead_back id h = (
  rw (path_parts-slash id (codes "dashboard") h) refl,
  rw (path_parts-end id h) (rw (path_parts-end id h, parts_route) refl),
  rw (path_parts-slash id (codes "summary") h)
      (rw (path_parts-slash id (codes "summary") h, parts_route) refl),
)

-- The path of a feature in docs/agent-http-api.md, with what is behind it.
abbrev pub feature_url : Bytes → Bytes → Bytes → Bytes
feature_url id feature rest =
    codes "/v1/sessions/" ++ (id ++ (codes "/features/" ++ (feature ++ rest)))

-- What is behind the session's id of such a path.
feature_parts :
    (id feature : Bytes)
    → IsPart id
    → IsPart feature
    → path_parts [] (id ++ (codes "/features/" ++ (feature ++ [])))
      ≡ id ∷ codes "features" ∷ feature ∷ []
unfolding path_parts
feature_parts id feature h k =
    path_parts-slash id (codes "features/" ++ (feature ++ [])) h
    ∙ ap (λ (w : List Bytes). id ∷ codes "features" ∷ w)
        (ap (path_parts []) (append-nil feature) ∙ path_parts-end feature k)

verb_parts :
    (id feature verb : Bytes)
    → IsPart id
    → IsPart feature
    → path_parts [] (id ++ (codes "/features/" ++ (feature ++ b'/' ∷ verb)))
      ≡ id ∷ codes "features" ∷ feature ∷ path_parts [] verb
unfolding path_parts
verb_parts id feature verb h k =
    path_parts-slash id (codes "features/" ++ (feature ++ b'/' ∷ verb)) h
    ∙ ap (λ (w : List Bytes). id ∷ codes "features" ∷ w) (path_parts-slash feature verb k)

-- The routes of one feature that the API documents lead to reading, starting, reporting and
-- declining that feature of that session, for ids that are one part of a path each.
pub feature_paths_lead_back :
    (id feature : Bytes)
    → IsPart id
    → IsPart feature
    → (route (codes "GET") (feature_url id feature [])
        ≡ session_path id (feature_path feature feature_info))
      × (route (codes "POST") (feature_url id feature (codes "/start"))
          ≡ session_path id (feature_path feature feature_start))
      × (route (codes "POST") (feature_url id feature (codes "/complete"))
          ≡ session_path id (feature_path feature feature_complete))
      × (route (codes "POST") (feature_url id feature (codes "/unsupported"))
          ≡ session_path id (feature_path feature feature_unsupported))
unfolding route dashboard_of api_route parts_route session_route feature_route split_path path_parts
    bytes_eq
feature_paths_lead_back id feature h k =
    let alone = feature_parts id feature h k in
    let verb = λ (v : Bytes). verb_parts id feature v h k in
    (
      rw alone (rw (alone, parts_route) refl),
      rw (verb (codes "start")) (rw (verb (codes "start"), parts_route) refl),
      rw (verb (codes "complete")) (rw (verb (codes "complete"), parts_route) refl),
      rw (verb (codes "unsupported")) (rw (verb (codes "unsupported"), parts_route) refl),
    )
