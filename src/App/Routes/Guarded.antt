-- ===== src/App/Routes/Guarded.antt =====
-- What a request must carry before the routes change the database.
use content_platform.Prelude.{
  ℕ, Bool, true, false, some, ◌≡◌, ◌⊎◌, inl, inr, refl, sym, ◌∙◌, ap, arith,
}
use content_platform.GoTime.{Time}
use content_platform.Database.{Store}
use content_platform.Authn.{Principal}
use content_platform.Authn.Bearer.{single_authorization_header}
use content_platform.Authn.Middleware.{Verifier, with_context}
use content_platform.Authn.Middleware.Safety.{IsAuthenticated, middleware-IsAuthenticated}
use content_platform.Authn.Middleware
use content_platform.Http.{Context, Request, World, Exit, returned, panicked, Handler}
use content_platform.Httpx.Response.{send, write_json, write_data, write_error, log_internal_error}
use content_platform.Httpx.Middleware.{log_request, log_exit, access_log, recover, recovery, chain}
use content_platform.Httpx.Middleware.Logged.{world_of}
use content_platform.RequestId
use content_platform.Endpoint.Payload.{Readiness}
use content_platform.Endpoint.Reply.{write_failure, reject_access_token}
use content_platform.Endpoint.System.{handle_health, handle_ready, write_readiness}
use content_platform.Endpoint.Profile.{handle_change_status}
use content_platform.Httpx.Recorder.{set_header}
use content_platform.App.Dispatch.{Route, dispatch}
use content_platform.App.Routes.{
  Server, handle_method_not_allowed, handle_not_found, authenticate, route_handler, endpoint,
  with_path_id, mux, routes,
}

-- The routes that need no access token, and the redirect, which is ServeMux's own.
abbrev pub is_open : Route → Bool
is_open Route.register = true
is_open Route.login = true
is_open Route.refresh_token = true
is_open (Route.public_user id) = true
is_open Route.redirected = true
is_open Route.health = false
is_open Route.ready = false
is_open Route.logout = false
is_open Route.me = false
is_open Route.update_me = false
is_open Route.delete_me = false
is_open (Route.change_status id) = false
is_open (Route.method_not_allowed allowed) = false
is_open Route.no_route = false

-- The database after a request.
abbrev pub state_after : Exit Store → Store
state_after e = (world_of e).state

-- The database is unchanged, or the request was authenticated.
abbrev IsGuarded : Server → Request → World Store → Exit Store → Type 0
IsGuarded server r w e =
    (state_after e ≡ w.state)
    ⊎ ((v : Verifier) × (now : Time) × (p : Principal) × (server.verifier ≡ some v)
        × (server.clock ≡ some now)
        × IsAuthenticated v now r p)

module _ (server : Server) where
  authenticate-IsGuarded :
      (next : Handler Store) (r : Request) (w : World Store)
      → IsGuarded server r w (authenticate server next r w)
  unfolding authenticate Middleware.reject_access_token reject_access_token write_failure
      write_error write_json send log_internal_error
  authenticate-IsGuarded next r w =
      elim (middleware-IsAuthenticated (some (reject_access_token server.marshal server.logger))
        next server.verifier server.clock r w) [
          | inl e ↦ inl (ap state_after e)
          | inr (v, now, p, a, b, h, e) ↦ inr (v, now, p, a, b, h)
        ]

  -- What stands in a request beside its header and the looks at its context was not tested.
  IsAuthenticated-alike :
      (v : Verifier) (now : Time) (p : Principal) (r r' : Request)
      → r'.header ≡ r.header
      → ((n : ℕ) → r'.context.cancelled n ≡ r.context.cancelled n)
      → IsAuthenticated v now r' p
      → IsAuthenticated v now r p
  IsAuthenticated-alike v now p r r' same polls h = record {
    authorization = h.authorization;
    token = h.token;
    is_only = ap single_authorization_header (sym same) ∙ h.is_only;
    is_bearer = h.is_bearer;
    fits = h.fits;
    verified = h.verified;
    has_user = h.has_user;
    has_session = h.has_session;
    live = (sym (polls 0) ∙ h.live.0, sym (polls 1) ∙ h.live.1, sym (polls 2) ∙ h.live.2);
  }

  IsGuarded-alike :
      (r r' : Request) (w w' : World Store) (e e' : Exit Store)
      → r'.header ≡ r.header
      → ((n : ℕ) → r'.context.cancelled n ≡ r.context.cancelled n)
      → w'.state ≡ w.state
      → state_after e ≡ state_after e'
      → IsGuarded server r' w' e'
      → IsGuarded server r w e
  IsGuarded-alike r r' w w' e e' same polls begin end (inl h) = inl (end ∙ h ∙ begin)
  IsGuarded-alike r r' w w' e e' same polls begin end (inr (v, now, p, a, b, h)) =
      inr (v, now, p, a, b, IsAuthenticated-alike v now p r r' same polls h)

  write_readiness-state :
      (ctx : Context) (result : Readiness) (w : World Store)
      → (write_readiness server.marshal ctx result w).state ≡ w.state
  unfolding write_readiness write_data write_error write_json send log_internal_error
  write_readiness-state ctx result w = ground arith

  route_handler-IsGuarded :
      (route : Route)
      → is_open route ≡ false
      → (r : Request) (w : World Store) → IsGuarded server r w (route_handler server route r w)
  unfolding route_handler handle_health handle_ready handle_method_not_allowed handle_not_found
      write_data write_error write_json send log_internal_error
  route_handler-IsGuarded Route.register h r w = absurd (cc)
  route_handler-IsGuarded Route.login h r w = absurd (cc)
  route_handler-IsGuarded Route.refresh_token h r w = absurd (cc)
  route_handler-IsGuarded (Route.public_user id) h r w = absurd (cc)
  route_handler-IsGuarded Route.redirected h r w = absurd (cc)
  route_handler-IsGuarded Route.health h r w = inl refl
  route_handler-IsGuarded Route.ready h r w = inl (write_readiness-state _ _ w)
  route_handler-IsGuarded Route.logout h r w = authenticate-IsGuarded _ r w
  route_handler-IsGuarded Route.me h r w = authenticate-IsGuarded _ r w
  route_handler-IsGuarded Route.update_me h r w = authenticate-IsGuarded _ r w
  route_handler-IsGuarded Route.delete_me h r w = authenticate-IsGuarded _ r w
  route_handler-IsGuarded (Route.change_status id) h r w =
      let next : Handler Store =
        endpoint server
          (handle_change_status server.env server.rules server.library server.available) in
      let exit = authenticate server next (with_path_id server id r) w in
      IsGuarded-alike r (with_path_id server id r) w w exit exit refl (λ n. refl) refl refl
        (authenticate-IsGuarded next (with_path_id server id r) w)
  route_handler-IsGuarded (Route.method_not_allowed allowed) h r w = inl refl
  route_handler-IsGuarded Route.no_route h r w = inl refl

  recover-state :
      (logger : Bool) (r : Request) (e : Exit Store)
      → state_after (recover server.marshal logger r e) ≡ state_after e
  unfolding recover write_error write_json send log_internal_error
  recover-state logger r (returned w) = refl
  recover-state logger r (panicked w) = refl

  log_exit-state :
      (logger : Bool) (r : Request) (e : Exit Store)
      → state_after (log_exit logger r e) ≡ state_after e
  unfolding log_exit log_request
  log_exit-state logger r (returned w) = refl
  log_exit-state logger r (panicked w) = refl

  -- The database changes in a request to a route that is not open only where the request carries an
  -- access token that the verifier accepted: one Authorization value, a bearer token, and a principal
  -- with positive identifiers. Health, logout, the routes of /me and /admin, refused methods and unknown
  -- paths are not open; registration, login, refresh, public profiles and redirects are. Handlers that
  -- panic, and the middleware around them, are part of this.
  pub routes-IsGuarded :
      (r : Request) (w : World Store)
      → is_open (dispatch server.unescape r.method r.path) ≡ false
      → (state_after (routes server r w) ≡ w.state)
        ⊎ ((v : Verifier) × (now : Time) × (p : Principal) × (server.verifier ≡ some v)
            × (server.clock ≡ some now)
            × IsAuthenticated v now r p)
  unfolding routes chain RequestId.middleware RequestId.identified access_log recovery mux
  routes-IsGuarded r w h =
      let named = RequestId.identified server.random_text r in
      let route = dispatch server.unescape r.method r.path in
      let inner : World Store = record w {
        writer = record (set_header RequestId.header named.context.request_id w.writer) {
          recorder = some 0;
        };
      } in
      let exit = route_handler server route named inner in
      IsGuarded-alike r named w inner (routes server r w) exit refl (λ n. refl) refl
        (log_exit-state server.logger named (recover server.marshal server.logger named exit)
          ∙ recover-state server.logger named exit)
        (route_handler-IsGuarded route h named inner)
