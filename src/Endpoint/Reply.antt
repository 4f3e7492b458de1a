-- ===== src/Endpoint/Reply.antt =====
-- identity/handler/handler.go: the errors that reach a client, and what a handler writes.
use content_platform.Prelude.{
  ℕ, Text, codes, Bool, true, false, not, ◌&&◌, Option, none, some, is_positive, if◌then◌else◌,
}
use content_platform.Errors.{
  Error, email_exists, not_found, invalid_service_configuration, email_already_registered,
  invalid_credentials, invalid_refresh_token, session_invalid, user_frozen, user_not_found,
  admin_required, admin_target_forbidden, invalid_status_transition, validation, internal,
  repository_internal, context_error, adapter_error,
}
use content_platform.AppError.{
  Kind, AppError, Failure, application, other, new_error, wrap_error, from, internal_kind,
  invalid_argument, unauthenticated, permission_denied, not_found_kind, conflict,
}
use content_platform.Authn.{Principal}
use content_platform.Http.{Context, Request, World, Exit, returned, Handler}
use content_platform.Httpx.Recorder.{set_header}
use content_platform.Httpx.Response.{Envelope, write_data, write_error}
use content_platform.Endpoint.Payload.{Payload}
pub mod Status

abbrev pub max_request_body_bytes : ℕ
max_request_body_bytes = 65536

-- An error that a handler is given: of package apperror, authn.ErrInvalidAccessToken, or one that the
-- service returned.
pub data HandlerFailure : Type 0 where
  application_failure : AppError Payload → HandlerFailure
  access_token_rejected : HandlerFailure
  service_failure : Error → HandlerFailure

unfoldable pub public_error : Kind → Text → Text → Failure Payload
unfolding new_error
public_error kind code message = application (new_error kind code message)

-- The cases of handlerError for an error of the service.
unfoldable pub service_error : Error → Failure Payload
unfolding public_error wrap_error
service_error (validation field) =
    public_error invalid_argument (codes "validation_failed") (codes "request validation failed")
service_error session_invalid =
    public_error unauthenticated (codes "session_invalid") (codes "session is invalid")
service_error invalid_credentials =
    public_error unauthenticated (codes "invalid_credentials") (codes "credentials are invalid")
service_error invalid_refresh_token =
    public_error unauthenticated (codes "invalid_refresh_token") (codes "refresh token is invalid")
service_error user_frozen =
    public_error permission_denied (codes "user_frozen") (codes "user is frozen")
service_error admin_required =
    public_error permission_denied (codes "admin_required")
      (codes "administrator access is required")
service_error admin_target_forbidden =
    public_error permission_denied (codes "admin_target_forbidden")
      (codes "administrator target is forbidden")
service_error user_not_found =
    public_error not_found_kind (codes "user_not_found") (codes "user was not found")
service_error email_already_registered =
    public_error conflict (codes "email_already_registered") (codes "email is already registered")
service_error invalid_status_transition =
    public_error conflict (codes "invalid_status_transition") (codes "status transition is invalid")
service_error (internal c) =
    application (wrap_error internal_kind (codes "internal_error") (codes "internal server error"))
service_error (repository_internal c) =
    application (wrap_error internal_kind (codes "internal_error") (codes "internal server error"))
service_error email_exists = other
service_error not_found = other
service_error invalid_service_configuration = other
service_error (context_error c) = other
service_error adapter_error = other

-- handlerError
unfoldable pub handler_error : HandlerFailure → Failure Payload
unfolding public_error service_error
handler_error (application_failure e) = application e
handler_error access_token_rejected =
    public_error unauthenticated (codes "invalid_access_token") (codes "access token is invalid")
handler_error (service_failure e) = service_error e

-- internalHandlerError
unfoldable pub internal_handler_error : HandlerFailure
unfolding new_error
internal_handler_error =
    application_failure
      (new_error internal_kind (codes "internal_error") (codes "internal server error"))

-- validationHandlerError
unfoldable pub validation_handler_error : HandlerFailure
unfolding new_error
validation_handler_error =
    application_failure
      (new_error invalid_argument (codes "validation_failed") (codes "request validation failed"))

-- What a handler writes at its end.
pub data Reply : Type 0 where
  data_reply : (status : ℕ) → Payload → Reply
  error_reply : HandlerFailure → Reply

-- Handler.principal
unfoldable pub principal : Request → Option Principal
principal r = elim r.context.principal [
  | none ↦ none
  | some p ↦ if is_positive p.user_id && is_positive p.session_id then some p else none
]

-- `appErr.Kind == apperror.Unauthenticated`
unfoldable pub is_unauthenticated : Failure Payload → Bool
is_unauthenticated other = false
is_unauthenticated (application e) = elim e.kind [ unauthenticated ↦ true | _ ↦ false ]

module _ {S : Type 0} (marshal : Envelope Payload → Option Text) where
  -- Handler.writeError
  unfoldable pub write_failure : Context → Bool → HandlerFailure → World S → World S
  unfolding is_unauthenticated
  write_failure ctx logger e w =
      let shown = handler_error e in
      write_error marshal ctx logger shown (record w {
        writer =
            if is_unauthenticated shown
            then set_header (codes "Www-Authenticate") (codes "Bearer") w.writer
            else w.writer;
      })

  unfoldable pub write_reply : Context → Bool → Reply → World S → World S
  write_reply ctx logger (data_reply status payload) w = write_data marshal ctx status payload w
  write_reply ctx logger (error_reply e) w = write_failure ctx logger e w

  -- Handler.RejectAccessToken
  unfoldable pub reject_access_token : Bool → Handler S
  reject_access_token logger r w = returned (write_failure r.context logger access_token_rejected w)

  -- A handler that reads and changes the state behind it, and then writes its reply.
  unfoldable pub serve : Bool → (Request → S → Reply × S) → Handler S
  serve logger endpoint r w =
      let (reply, s) = endpoint r w.state in
      returned (write_reply r.context logger reply (record w { state = s }))
