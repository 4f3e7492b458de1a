-- ===== src/App/Routes.antt =====
-- Routes of app/routes.go: the handler of every route, and the middleware around them all.
use content_platform.Prelude.{
  ℕ, Text, List, [], ◌∷◌, ◌++◌, codes, Bool, true, false, Option, none, some,
}
use content_platform.GoTime.{Time}
use content_platform.Domain.Validation.{TextRules}
use content_platform.Database.{Store, Environment}
use content_platform.AppError.{
  AppError, Failure, application, new_error, method_not_allowed, not_found_kind,
}
use content_platform.Http.{Context, Request, World, Exit, returned, Handler}
use content_platform.Httpx.Recorder.{set_header}
use content_platform.Httpx.Response.{Envelope, write_error}
use content_platform.Httpx.Middleware.{chain, access_log, recovery}
use content_platform.RequestId
use content_platform.Authn.Middleware.{Verifier}
use content_platform.Authn.Middleware
use content_platform.Service.{Service}
use content_platform.Endpoint.Payload.{Payload}
use content_platform.Endpoint.Reply.{Reply, serve, reject_access_token}
use content_platform.Endpoint.Requests.{RequestLibrary}
use content_platform.Endpoint.Auth.{handle_register, handle_login, handle_logout, handle_refresh}
use content_platform.Endpoint.Profile.{
  handle_me, handle_public_user, handle_update_me, handle_delete_me, handle_change_status,
}
use content_platform.Endpoint.System.{DependencyResult, handle_health, handle_ready}
use content_platform.App.Dispatch.{Route, dispatch}
pub mod Guarded

-- What a request meets: the parts that `New` built, the packages that are parameters, and what the
-- clock, the database, the random source and the dependencies do while it is served.
pub record Server : Type 0 where
  pub env : Environment
  pub rules : TextRules
  pub service : Service
  pub library : RequestLibrary
  pub marshal : Envelope Payload → Option Text
  pub available : Bool
  pub logger : Bool
  pub verifier : Option Verifier
  pub clock : Option Time
  pub results : List DependencyResult
  pub random_text : Text
  pub unescape : Text → Text
  -- the redirect that ServeMux answers with
  pub redirect : Handler Store

-- `strings.Join(allowed, ", ")`
unfoldable pub join : List Text → Text
join [] = []
join (a ∷ []) = a
join (a ∷ b ∷ rest) = a ++ (codes ", " ++ join (b ∷ rest))

module _ (server : Server) where
  -- methodNotAllowed
  unfoldable pub handle_method_not_allowed : List Text → Handler Store
  unfolding new_error join
  handle_method_not_allowed allowed r w = returned (
      write_error server.marshal r.context server.logger
        (application
          (new_error method_not_allowed (codes "method_not_allowed") (codes "method not allowed")))
        (record w { writer = set_header (codes "Allow") (join allowed) w.writer }))

  -- notFound
  unfoldable pub handle_not_found : Handler Store
  unfolding new_error
  handle_not_found r w = returned (
      write_error server.marshal r.context server.logger
        (application (new_error not_found_kind (codes "not_found") (codes "route not found"))) w)

  -- `authenticate(handler)`
  unfoldable pub authenticate : Handler Store → Handler Store
  authenticate next =
      Middleware.middleware server.verifier server.clock
        (some (reject_access_token server.marshal server.logger)) next

  unfoldable pub endpoint : (Request → Store → Reply × Store) → Handler Store
  endpoint handle = serve server.marshal server.logger handle

  -- A request with its path value.
  unfoldable pub with_path_id : Text → Request → Request
  with_path_id id r = record r { path_id = id }

  -- The handler that the mux calls for a route.
  unfoldable pub route_handler : Route → Handler Store
  unfolding endpoint authenticate with_path_id
  route_handler Route.health = handle_health server.marshal
  route_handler Route.ready = handle_ready server.marshal server.results
  route_handler Route.register =
      endpoint
        (handle_register server.env server.rules server.service server.library server.available)
  route_handler Route.login =
      endpoint (handle_login server.env server.rules server.service server.library server.available)
  route_handler Route.refresh_token =
      endpoint
        (handle_refresh server.env server.rules server.service server.library server.available)
  route_handler Route.logout = authenticate (
      endpoint
        (handle_logout server.env server.rules server.service server.library server.available))
  route_handler Route.me =
      authenticate (endpoint (handle_me server.env server.rules server.library server.available))
  route_handler Route.update_me =
      authenticate
        (endpoint (handle_update_me server.env server.rules server.library server.available))
  route_handler Route.delete_me =
      authenticate
        (endpoint (handle_delete_me server.env server.rules server.library server.available))
  route_handler (Route.public_user id) = λ r w.
      endpoint (handle_public_user server.env server.rules server.library server.available)
        (with_path_id id r) w
  route_handler (Route.change_status id) = λ r w.
      authenticate
        (endpoint (handle_change_status server.env server.rules server.library server.available))
        (with_path_id id r) w
  route_handler (Route.method_not_allowed allowed) = handle_method_not_allowed allowed
  route_handler Route.no_route = handle_not_found
  route_handler Route.redirected = server.redirect

  unfoldable pub mux : Handler Store
  mux r w = route_handler (dispatch server.unescape r.method r.path) r w

  -- Routes
  unfoldable pub routes : Handler Store
  routes = chain mux (
      RequestId.middleware server.random_text
      ∷ access_log server.logger
      ∷ recovery server.marshal server.logger
      ∷ [])
