-- ===== src/App/Dispatch.antt =====
-- The patterns of app/routes.go, with what http.ServeMux makes of them: the escaped path is cut at its
-- slashes, a method's pattern goes before one without a method, GET serves HEAD too, and `{id}` matches
-- one segment. `unescape` is url.PathUnescape of a segment, a parameter.
use content_platform.Prelude.{
  Text, List, [], ◌∷◌, codes, Bool, true, false, not, ◌&&◌, ◌||◌, ◌==◌, text_eq, if◌then◌else◌,
}

pub data Route : Type 0 where
  health ready register login logout refresh_token : Route
  me update_me delete_me : Route
  public_user : (id : Text) → Route
  change_status : (id : Text) → Route
  method_not_allowed : (allowed : List Text) → Route
  no_route : Route
  -- ServeMux answers with a redirect to the clean path
  redirected : Route

-- The segments of a path behind its first slash.
unfoldable pub split_slash : Text → List Text
split_slash [] = [] ∷ []
split_slash (c ∷ s) = elim (split_slash s) [
  | [] ↦ []
  | first ∷ rest ↦ if c == b'/' then [] ∷ first ∷ rest else (c ∷ first) ∷ rest
]

unfoldable pub segments : Text → List Text
unfolding split_slash
segments [] = []
segments (c ∷ s) = split_slash s

unfoldable pub is_last : List Text → Bool
is_last [] = true
is_last (s ∷ rest) = false

-- A segment that path.Clean removes. An empty last segment is a trailing slash, which stays.
unfoldable pub is_unclean : List Text → Bool
unfolding is_last
is_unclean [] = false
is_unclean (s ∷ rest) =
    text_eq s (codes ".")
    || text_eq s (codes "..")
    || (text_eq s [] && not (is_last rest))
    || is_unclean rest

-- A method's own pattern, or the pattern without a method.
unfoldable pub only : Text → Text → Route → Route
only method wanted route = if text_eq method wanted then route else method_not_allowed (wanted ∷ [])

unfoldable pub get_or_head : Text → Route → Route
get_or_head method route =
    if text_eq method (codes "GET") || text_eq method (codes "HEAD")
    then route
    else method_not_allowed (codes "GET" ∷ [])

unfoldable pub me_route : Text → Route
me_route method =
    if text_eq method (codes "GET")
    then me
    else if text_eq method (codes "PUT")
    then update_me
    else if text_eq method (codes "DELETE")
    then delete_me
    else method_not_allowed (codes "GET" ∷ codes "PUT" ∷ codes "DELETE" ∷ [])

unfoldable pub one_segment : Text → Text → Route
unfolding only get_or_head me_route
one_segment method a =
    if text_eq a (codes "healthz")
    then get_or_head method health
    else if text_eq a (codes "readyz")
    then get_or_head method ready
    else if text_eq a (codes "register")
    then only method (codes "POST") register
    else if text_eq a (codes "login")
    then only method (codes "POST") login
    else if text_eq a (codes "logout")
    then only method (codes "POST") logout
    else if text_eq a (codes "me")
    then me_route method
    else no_route

unfoldable pub two_segments : Text → Text → Text → Route
unfolding only
two_segments method a b =
    if text_eq a (codes "token") && text_eq b (codes "refresh")
    then only method (codes "POST") refresh_token
    else if text_eq a (codes "users") && not (text_eq b [])
    then only method (codes "GET") (public_user b)
    else no_route

unfoldable pub four_segments : Text → Text → Text → Text → Text → Route
unfolding only
four_segments method a b id d =
    if text_eq a (codes "admin")
      && text_eq b (codes "users")
      && not (text_eq id [])
      && text_eq d (codes "status")
    then only method (codes "PUT") (change_status id)
    else no_route

unfoldable pub match_segments : Text → List Text → Route
unfolding one_segment two_segments four_segments
match_segments method (a ∷ []) = one_segment method a
match_segments method (a ∷ b ∷ []) = two_segments method a b
match_segments method (a ∷ b ∷ c ∷ d ∷ []) = four_segments method a b c d
match_segments method _ = no_route

unfoldable pub map_text : (Text → Text) → List Text → List Text
map_text f [] = []
map_text f (s ∷ rest) = f s ∷ map_text f rest

-- The route of a request, by its method and its escaped path.
unfoldable pub dispatch : (Text → Text) → Text → Text → Route
unfolding match_segments is_unclean segments map_text
dispatch unescape method path =
    if is_unclean (segments path)
    then redirected
    else match_segments method (map_text unescape (segments path))
