-- ===== src/Errors.antt =====
-- identity/service/errors.go and internalError of infra/postgres/identity/repository.go. An error
-- is its constructor: a sentinel, or a wrapper with what errors.Is can find in it. Messages and
-- the operation that a repository error names are not kept, since the service reads neither.
use content_platform.Prelude.{Bool, true, false, Option, none, some}

-- context.Canceled and context.DeadlineExceeded.
pub data ContextErr : Type 0 where
  canceled deadline_exceeded : ContextErr

pub data ValidationField : Type 0 where
  email_field password_field display_name_field bio_field status_field reason_field :
      ValidationField
  muted_until_field : ValidationField

pub data Error : Type 0 where
  email_exists not_found invalid_service_configuration : Error
  email_already_registered invalid_credentials invalid_refresh_token session_invalid : Error
  user_frozen user_not_found admin_required admin_target_forbidden : Error
  invalid_status_transition : Error
  -- *ValidationError
  validation : ValidationField → Error
  -- *internalError of the service
  internal : Option ContextErr → Error
  -- *internalError of the repository
  repository_internal : Option ContextErr → Error
  -- what ctx.Err() returns
  context_error : ContextErr → Error
  -- an error of a password or token adapter
  adapter_error : Error

unfoldable pub internal_context_marker : Error → Option ContextErr
internal_context_marker (internal c) = c
internal_context_marker (repository_internal c) = c
internal_context_marker (context_error c) = some c
internal_context_marker _ = none

-- `newInternalError(cause)`; of a nil cause it is `internal none`.
unfoldable pub new_internal_error : Error → Error
new_internal_error cause = internal (internal_context_marker cause)

-- `errors.Is(err, ErrInternal)`
unfoldable pub is_internal : Error → Bool
is_internal (internal c) = true
is_internal (repository_internal c) = true
is_internal _ = false

-- `errors.Is(err, ErrNotFound)`
unfoldable pub is_not_found : Error → Bool
is_not_found not_found = true
is_not_found _ = false

-- `errors.Is(err, ErrEmailExists)`
unfoldable pub is_email_exists : Error → Bool
is_email_exists email_exists = true
is_email_exists _ = false

-- A Go pair of a value and an error, of which the caller reads one.
pub data Result (A : Type 0) : Type 0 where
  ok : A → Result A
  err : Error → Result A
