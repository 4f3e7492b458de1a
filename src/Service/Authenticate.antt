-- ===== src/Service/Authenticate.antt =====
-- Authenticate and Me (auth.go, profile.go): the check of a session and of its user before every
-- request that carries an access token.
pub mod Correct
use content_platform.Prelude.{ℤ, Text, true, not, ◌||◌, is_positive, eq_ℤ, if◌then◌else◌, none}
use content_platform.GoTime.{Time, is_after}
use content_platform.Domain.{User, UserView, view, is_nil, normalize_time}
use content_platform.Domain.Validation.{TextRules}
use content_platform.Errors.{
  Error, internal, not_found, session_invalid, new_internal_error, internal_context_marker,
  is_internal, is_not_found,
}
use content_platform.Ports.{AuthenticationState}
use content_platform.Database.{Environment, at_entry, after_read, after_clock}
use content_platform.Database.Monad.{Action, pure, lift, attempt, map_error, ◌>>=◌, ◌>>◌, throw_if}
use content_platform.Repository.Sessions.{find_authentication_state}
use content_platform.Service.{check_live_context, check_context, now, fail_with}
use content_platform.Service.Checks.{
  valid_authentication_session_structure, strict_authentication_user_error,
  should_recover_expired_mute, secret_free_user,
}
use content_platform.Service.Mute.{recover_expired_mute_after_read}

pub record AuthenticateInput : Type 0 where
  pub user_id : ℤ
  pub session_id : ℤ

unfoldable pub authentication_lookup_error : Error → Error
unfolding new_internal_error internal_context_marker is_internal is_not_found is_nil
authentication_lookup_error e =
    if not (is_nil (internal_context_marker e)) || is_internal e
    then new_internal_error e
    else if is_not_found e
    then session_invalid
    else new_internal_error e

unfoldable pub authentication_recovery_error : Error → Error
unfolding new_internal_error
authentication_recovery_error not_found = session_invalid
authentication_recovery_error e = new_internal_error e

module _ (env : Environment) (rules : TextRules) where
  -- The user after a mute that has run out is lifted.
  unfoldable pub current_user : ℤ → User → Time → Text → Action User
  unfolding authentication_recovery_error
  current_user expected_id user now request_id =
      if should_recover_expired_mute user now
      then (do
        recovered ←
            map_error authentication_recovery_error
              (recover_expired_mute_after_read env rules user now request_id)
        fail_with (strict_authentication_user_error rules recovered expected_id true)
        pure recovered)
      else pure user

  -- The tests on what the database returned.
  unfoldable pub check_state : AuthenticateInput → AuthenticationState → Action (Unit {0})
  check_state input state = do
    throw_if (not (valid_authentication_session_structure state.session input.session_id))
        (internal none)
    throw_if
        (not (eq_ℤ state.session.user_id input.user_id) || not (is_nil state.session.revoked_at))
        session_invalid
    fail_with (strict_authentication_user_error rules state.user state.session.user_id true)

  -- `(s *Service) authenticate`, which returns the user of its result.
  unfoldable pub authenticate : AuthenticateInput → Text → Action User
  authenticate input request_id = do
    throw_if (not (is_positive input.user_id) || not (is_positive input.session_id)) session_invalid
    check_live_context env at_entry
    found ← attempt (find_authentication_state env input.session_id)
    check_context env after_read
    state ← map_error authentication_lookup_error (lift found)
    check_state input state
    t ← now env
    check_context env after_clock
    throw_if (not (is_after (normalize_time state.session.expires_at) t)) session_invalid
    user ← current_user input.user_id state.user t request_id
    pure (secret_free_user user)

  -- `Me`
  unfoldable pub me : AuthenticateInput → Text → Action UserView
  me input request_id = do user ← authenticate input request_id; pure (view user)
