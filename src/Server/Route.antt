-- ===== src/Server/Route.antt =====
-- `split_path` and the routes of `HandleRequest`.
use sctp_conformance.Base.{
  Bool, ◌&&◌, List, [], ◌∷◌, ◌++◌, Option, none, some, ◌==◌, if◌then◌else◌, Bytes, codes, bytes_eq,
  is_empty,
}

-- The loop of `split_path`: `current` has been read since the last slash.
unfoldable pub path_parts : Bytes → Bytes → List Bytes
path_parts current [] = if is_empty current then [] else current ∷ []
path_parts current (ch ∷ rest) =
    let at_query = if is_empty current then [] else current ∷ [] in
    let at_slash = if is_empty current then path_parts [] rest else current ∷ path_parts [] rest in
    let inside = path_parts (current ++ ch ∷ []) rest in
    if ch == b'?' then at_query else if ch == b'/' then at_slash else inside

unfoldable pub split_path : Bytes → List Bytes
unfolding path_parts
split_path path = path_parts [] path

-- The routes of `HandleRequest`: on one feature of a session, on a session, and the rest.
pub data FeatureRoute : Type 0 where
  feature_info feature_start feature_complete feature_unsupported feature_other : FeatureRoute

pub data SessionRoute : Type 0 where
  dashboard session_info session_summary session_other : SessionRoute
  feature_path : Bytes → FeatureRoute → SessionRoute

pub data Route : Type 0 where
  index create_session features health unknown_route : Route
  session_path : Bytes → SessionRoute → Route

abbrev is_get : Bytes → Bool
is_get method = bytes_eq method (codes "GET")

abbrev is_post : Bytes → Bool
is_post method = bytes_eq method (codes "POST")

-- Behind `/v1/sessions/{id}/features/{feature}`.
unfoldable pub feature_route : Bytes → List Bytes → FeatureRoute
unfolding bytes_eq
feature_route method [] = if is_get method then feature_info else feature_other
feature_route method (verb ∷ []) =
    if bytes_eq verb (codes "start") && is_post method
    then feature_start
    else if bytes_eq verb (codes "complete") && is_post method
    then feature_complete
    else if bytes_eq verb (codes "unsupported") && is_post method
    then feature_unsupported
    else feature_other
feature_route method _ = feature_other

-- Behind `/v1/sessions/{id}`.
unfoldable pub session_route : Bytes → List Bytes → SessionRoute
unfolding bytes_eq feature_route
session_route method [] = if is_get method then session_info else session_other
session_route method (word ∷ []) =
    if bytes_eq word (codes "summary") && is_get method then session_summary else session_other
session_route method (word ∷ feature ∷ rest) =
    if bytes_eq word (codes "features")
    then feature_path feature (feature_route method rest)
    else session_other

-- The session whose dashboard is asked for.
unfoldable pub dashboard_of : Bytes → List Bytes → Option Bytes
unfolding bytes_eq
dashboard_of method (a ∷ b ∷ c ∷ []) =
    if bytes_eq a (codes "sessions") && bytes_eq c (codes "dashboard") && is_get method
    then some b
    else none
dashboard_of method _ = none

-- The routes that start with a session's path.
unfoldable pub parts_route : Bytes → List Bytes → Route
unfolding bytes_eq session_route
parts_route method (a ∷ b ∷ c ∷ rest) =
    if bytes_eq a (codes "v1") && bytes_eq b (codes "sessions")
    then session_path c (session_route method rest)
    else unknown_route
parts_route method _ = unknown_route

-- The tests behind that of the dashboard.
unfoldable pub api_route : Bytes → Bytes → Route
unfolding bytes_eq split_path parts_route
api_route method path =
    if is_get method && bytes_eq path (codes "/healthz")
    then health
    else if is_get method && bytes_eq path (codes "/v1/features")
    then features
    else if is_post method && bytes_eq path (codes "/v1/sessions")
    then create_session
    else parts_route method (split_path path)

unfoldable pub route : Bytes → Bytes → Route
unfolding dashboard_of api_route
route method path =
    if is_get method && bytes_eq path (codes "/")
    then index
    else elim (dashboard_of method (split_path path)) [
      | some id ↦ session_path id dashboard
      | none ↦ api_route method path
    ]
