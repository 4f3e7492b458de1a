-- ===== src/Authn/Middleware.antt =====
-- Middleware of platform/authn/middleware.go. A verifier or clock that is a nil interface is `none`;
-- the clock is read once.
use content_platform.Prelude.{
  ℕ, Text, [], ◌∷◌, codes, Bool, true, false, not, ◌&&◌, ◌||◌, Option, none, some, ltb, is_positive,
  if◌then◌else◌,
}
use content_platform.GoTime.{Time, is_zero, year_in_range, truncate_second}
use content_platform.Domain.Validation.{byte_length}
use content_platform.Http.{Request, Context, World, Exit, returned, Handler}
use content_platform.Httpx.Recorder.{set_header, write_header}
use content_platform.Authn.{Principal}
use content_platform.Authn.Bearer.{single_authorization_header, bearer_token}
pub mod Safety

abbrev pub max_access_token_bytes : ℕ
max_access_token_bytes = 4096

abbrev pub Verifier : Type 0
Verifier = Text → Time → Option Principal

-- validMiddlewareTime
unfoldable pub valid_middleware_time : Time → Bool
valid_middleware_time value = not (is_zero value) && year_in_range value

-- The token that the request carries.
unfoldable pub raw_token : Request → Option Text
raw_token r = elim (single_authorization_header r.header) [
  | none ↦ none
  | some authorization ↦ elim (bearer_token authorization) [
    | none ↦ none
    | some token ↦ if ltb max_access_token_bytes (byte_length token) then none else some token
  ]
]

-- The tests of the principal that the verifier returned.
unfoldable pub accept_principal : Request → Option Principal → Option Principal
accept_principal r none = none
accept_principal r (some p) =
    if not (is_positive p.user_id) || not (is_positive p.session_id) || r.context.cancelled 2
    then none
    else some p

-- What Middleware does with the token, at the instant that the clock gave.
unfoldable pub verify_token : Verifier → Time → Request → Text → Option Principal
unfolding valid_middleware_time
verify_token verifier now r token =
    if not (valid_middleware_time (truncate_second now)) || r.context.cancelled 1
    then none
    else accept_principal r (verifier token (truncate_second now))

-- The principal that Middleware lets through, or `none` where it rejects the request.
unfoldable pub authenticated : Option Verifier → Option Time → Request → Option Principal
authenticated none clock r = none
authenticated (some verifier) none r = none
authenticated (some verifier) (some now) r =
    if r.context.cancelled 0
    then none
    else elim (raw_token r) [ none ↦ none | some token ↦ verify_token verifier now r token ]

-- `request.WithContext(WithContext(...))`
unfoldable pub with_context : Principal → Request → Request
with_context p r = record r { context = record r.context { principal = some p } }

module _ {S : Type 0} where
  -- rejectAccessToken
  unfoldable pub reject_access_token : Option (Handler S) → Handler S
  reject_access_token (some reject) r w = reject r w
  reject_access_token none r w = returned (record w {
    writer = write_header 401 (set_header (codes "Www-Authenticate") (codes "Bearer") w.writer);
  })

  unfoldable pub forward : Option (Handler S) → Handler S → Option Principal → Handler S
  forward reject next none r w = reject_access_token reject r w
  forward reject next (some p) r w = next (with_context p r) w

  -- `Middleware(verifier, clock, reject)(next)`
  unfoldable pub middleware :
      Option Verifier → Option Time → Option (Handler S) → Handler S → Handler S
  middleware verifier clock reject next r w =
      forward reject next (authenticated verifier clock r) r w
