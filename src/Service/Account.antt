-- ===== src/Service/Account.antt =====
-- Register and Logout (auth.go).
pub mod Correct
use content_platform.Prelude.{ℤ, pos, Text, not, ◌||◌, none, [], is_positive, if◌then◌else◌}
use content_platform.GoTime.{Time}
use content_platform.Domain.{UserView, view, role_user, active, is_nil}
use content_platform.Domain.Validation.{
  TextRules, normalize_email, validate_email, validate_registration_password,
  normalize_display_name, validate_display_name,
}
use content_platform.Errors.{
  Error, internal, validation, email_field, password_field, display_name_field,
  email_already_registered, new_internal_error, internal_context_marker, is_email_exists,
}
use content_platform.Ports.{CreateUserRecord}
use content_platform.Database.{Environment, at_entry, after_hash, after_clock}
use content_platform.Database.Monad.{Action, pure, lift, map_error, ◌>>=◌, ◌>>◌, throw_if}
use content_platform.Repository.Users.{create_user}
use content_platform.Repository.Sessions.{revoke_session}
use content_platform.Service.{Service, check_live_context, check_context, now}

pub record RegisterInput : Type 0 where
  pub email : Text
  pub password : Text
  pub display_name : Text

pub record LogoutInput : Type 0 where
  pub user_id : ℤ
  pub session_id : ℤ

unfoldable pub registration_repository_error : Error → Error
unfolding new_internal_error internal_context_marker is_email_exists is_nil
registration_repository_error e =
    if not (is_nil (internal_context_marker e))
    then new_internal_error e
    else if is_email_exists e
    then email_already_registered
    else new_internal_error e

-- The record of a new account.
unfoldable pub registration_record : Text → Text → Text → Time → CreateUserRecord
registration_record email password_hash display_name now = record {
  email = email;
  password_hash = password_hash;
  display_name = display_name;
  bio = [];
  role = role_user;
  status = active;
  muted_until = none;
  violation_count = pos 0;
  created_at = now;
  updated_at = now;
  deleted_at = none;
}

module _ (env : Environment) (rules : TextRules) (service : Service) where
  -- `Register`
  unfoldable pub register : RegisterInput → Action UserView
  unfolding registration_record registration_repository_error
  register input = do
    let email = normalize_email rules input.email
    let display_name = normalize_display_name input.display_name
    throw_if (not (is_nil (validate_email rules email))) (validation email_field)
    throw_if (not (is_nil (validate_registration_password input.password)))
        (validation password_field)
    throw_if (not (is_nil (validate_display_name display_name))) (validation display_name_field)
    check_live_context env at_entry
    password_hash ←
        map_error new_internal_error (lift (service.password_hasher.hash input.password))
    check_live_context env after_hash
    t ← now env
    user ←
        map_error registration_repository_error
          (create_user env (registration_record email password_hash display_name t))
    pure (view user)

-- `Logout`, whose result is LoggedOut = true.
unfoldable pub logout : Environment → LogoutInput → Action (Unit {0})
logout env input = do
  throw_if (not (is_positive input.user_id) || not (is_positive input.session_id)) (internal none)
  check_live_context env at_entry
  t ← now env
  check_context env after_clock
  map_error new_internal_error (
      revoke_session env
        (record { user_id = input.user_id; session_id = input.session_id; revoked_at = t }))
