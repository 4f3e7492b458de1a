-- ===== src/Service/Profile.antt =====
-- PublicUser and UpdateMe (profile.go).
pub mod Sound
pub mod Correct
pub mod Public
use content_platform.Prelude.{
  ℤ, Text, Bool, true, false, not, ◌&&◌, ◌||◌, none, is_positive, eq_ℤ, text_eq, if◌then◌else◌,
}
use content_platform.GoTime.{Time, is_after, time_eq}
use content_platform.Domain.{
  User, UserView, view, PublicUserView, public_view, UserSession, status_eq, role_eq, frozen,
  can_edit_profile, is_nil, normalize_time,
}
use content_platform.Domain.Validation.{
  TextRules, normalize_display_name, validate_display_name, validate_bio,
}
use content_platform.Errors.{
  Error, internal, not_found, session_invalid, user_frozen, user_not_found, validation,
  display_name_field, bio_field, new_internal_error, internal_context_marker, is_internal,
  is_not_found,
}
use content_platform.Ports.{UserMutation, Field, unset, set_field}
use content_platform.Database.{Environment, at_entry, after_read, after_clock}
use content_platform.Database.Monad.{Action, pure, lift, attempt, map_error, ◌>>=◌, ◌>>◌, throw_if}
use content_platform.Repository.{within_tx}
use content_platform.Repository.Users.{find_user, update_user, field_or, field_is_set}
use content_platform.Repository.Sessions.{lock_session}
use content_platform.Service.{check_live_context, check_context, now, fail_with}
use content_platform.Service.Checks.{
  valid_authentication_session_structure, authentication_session, strict_authentication_user_error,
  valid_profile_user_structure, should_recover_expired_mute, secret_free_user, optional_times_equal,
}
use content_platform.Service.Mute.{
  recover_expired_mute_after_read, recover_expired_mute_for_auth, insert_pending,
}
use content_platform.Service.Rows.{lock_user}

pub record PublicUserInput : Type 0 where
  pub user_id : ℤ
  pub request_id : Text

pub record UpdateMeInput : Type 0 where
  pub user_id : ℤ
  pub session_id : ℤ
  pub request_id : Text
  pub display_name : Field Text
  pub bio : Field Text

unfoldable pub public_user_lookup_error : Error → Error
unfolding new_internal_error internal_context_marker is_internal is_not_found is_nil
public_user_lookup_error e =
    if not (is_nil (internal_context_marker e)) || is_internal e
    then new_internal_error e
    else if is_not_found e
    then user_not_found
    else new_internal_error e

unfoldable pub public_recovery_error : Error → Error
unfolding new_internal_error
public_recovery_error not_found = user_not_found
public_recovery_error e = new_internal_error e

-- `session_invalid` and `user_frozen` pass, any other error is internal.
unfoldable pub profile_error : Error → Error
unfolding new_internal_error
profile_error session_invalid = session_invalid
profile_error user_frozen = user_frozen
profile_error e = new_internal_error e

-- ErrNotFound of a session is an invalid session.
unfoldable pub session_lookup_error : Error → Error
unfolding new_internal_error is_not_found
session_lookup_error e = if is_not_found e then session_invalid else new_internal_error e

unfoldable pub valid_profile_mutation_result : TextRules → User → User → UserMutation → Time → Bool
unfolding field_or
valid_profile_mutation_result rules user previous mutation now =
    valid_profile_user_structure rules user mutation.user_id false
    && time_eq user.updated_at now
    && text_eq user.display_name (field_or mutation.display_name previous.display_name)
    && text_eq user.bio (field_or mutation.bio previous.bio)
    && eq_ℤ user.id previous.id
    && text_eq user.email previous.email
    && text_eq user.password_hash previous.password_hash
    && role_eq user.role previous.role
    && status_eq user.status previous.status
    && optional_times_equal user.muted_until previous.muted_until
    && eq_ℤ user.violation_count previous.violation_count
    && time_eq user.created_at previous.created_at
    && optional_times_equal user.deleted_at previous.deleted_at

-- A field of the input is written if it is set to another value.
unfoldable pub changed_field : Field Text → Text → Field Text
changed_field unset old = unset
changed_field (set_field value) old = if text_eq value old then unset else set_field value

unfoldable pub profile_mutation : UpdateMeInput → User → Time → UserMutation
unfolding changed_field field_is_set
profile_mutation input user now =
    let display_name = changed_field input.display_name user.display_name in
    let bio = changed_field input.bio user.bio in
    record {
      user_id = user.id;
      display_name = display_name;
      bio = bio;
      status = unset;
      muted_until = unset;
      violation_count = unset;
      updated_at = if field_is_set display_name || field_is_set bio then set_field now else unset;
      deleted_at = unset;
    }

-- The input with its display name normalised, if both fields are valid.
unfoldable pub normalized_name : Field Text → Field Text
normalized_name unset = unset
normalized_name (set_field value) = set_field (normalize_display_name value)

unfoldable pub check_display_name : Field Text → Action (Unit {0})
unfolding is_nil
check_display_name unset = pure tt
check_display_name (set_field value) =
    throw_if (not (is_nil (validate_display_name value))) (validation display_name_field)

unfoldable pub check_bio : Field Text → Action (Unit {0})
unfolding is_nil
check_bio unset = pure tt
check_bio (set_field value) = throw_if (not (is_nil (validate_bio value))) (validation bio_field)

module _ (env : Environment) (rules : TextRules) where
  -- The user after a mute that has run out is lifted.
  unfoldable pub refreshed_public_user : PublicUserInput → User → Time → Action User
  unfolding public_recovery_error
  refreshed_public_user input user t =
      if should_recover_expired_mute user t
      then (do
        recovered ←
            map_error public_recovery_error
              (recover_expired_mute_after_read env rules user t input.request_id)
        throw_if (not (valid_profile_user_structure rules recovered input.user_id true))
            (internal none)
        pure recovered)
      else pure user

  -- `PublicUser`
  unfoldable pub public_user : PublicUserInput → Action PublicUserView
  unfolding public_user_lookup_error
  public_user input = do
    throw_if (not (is_positive input.user_id)) (internal none)
    check_live_context env at_entry
    found ← attempt (find_user env input.user_id)
    check_context env after_read
    user ← map_error public_user_lookup_error (lift found)
    throw_if (not (valid_profile_user_structure rules user input.user_id true)) (internal none)
    t ← now env
    check_context env after_clock
    current ← refreshed_public_user input user t
    pure (public_view current)

  -- The UPDATE, if a field changes.
  unfoldable pub write_mutation : UpdateMeInput → User → Time → Action User
  write_mutation input user t =
      let mutation = profile_mutation input user t in
      if field_is_set mutation.display_name || field_is_set mutation.bio
      then (do
        updated ← map_error new_internal_error (update_user env mutation)
        throw_if (not (valid_profile_mutation_result rules updated user mutation t)) (internal none)
        pure updated)
      else pure user

  unfoldable pub check_own_session : ℤ → ℤ → UserSession → Action (Unit {0})
  unfolding authentication_session is_nil
  check_own_session user_id session_id session = do
    throw_if
        (not (valid_authentication_session_structure (authentication_session session) session_id))
        (internal none)
    throw_if (not (eq_ℤ session.user_id user_id) || not (is_nil session.revoked_at)) session_invalid

  -- The callback of the transaction of `UpdateMe`, once the row is locked.
  unfoldable pub update_profile : UpdateMeInput → User → Action User
  update_profile input user = do
    session ← map_error session_lookup_error (lock_session env input.session_id)
    check_own_session input.user_id input.session_id session
    fail_with (strict_authentication_user_error rules user input.user_id false)
    t ← now env
    throw_if (not (is_after (normalize_time session.expires_at) t)) session_invalid
    (current, pending) ← recover_expired_mute_for_auth env user t input.request_id
    throw_if (status_eq current.status frozen) user_frozen
    throw_if (not (can_edit_profile current.status)) session_invalid
    updated ← write_mutation input current t
    insert_pending env pending
    pure (secret_free_user updated)

  -- The callback of the transaction of `UpdateMe`.
  unfoldable pub update_locked : UpdateMeInput → Action User
  update_locked input =
      lock_user env new_internal_error input.user_id session_invalid (internal none)
      >>= update_profile input

  -- `UpdateMe` once both fields are valid.
  unfoldable pub update_valid : UpdateMeInput → Action UserView
  unfolding profile_error
  update_valid input = do
    throw_if (not (is_positive input.user_id) || not (is_positive input.session_id)) session_invalid
    check_live_context env at_entry
    updated ← map_error profile_error (within_tx env (update_locked input))
    throw_if (not (valid_profile_user_structure rules updated input.user_id true)) (internal none)
    pure (view updated)

  -- `UpdateMe`
  unfoldable pub update_me : UpdateMeInput → Action UserView
  unfolding normalized_name check_display_name check_bio
  update_me raw = do
    let input = record raw { display_name = normalized_name raw.display_name }
    check_display_name input.display_name
    check_bio input.bio
    update_valid input
