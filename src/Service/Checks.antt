-- ===== src/Service/Checks.antt =====
-- The tests on users, sessions and times that the operations of identity/service share (auth.go and
-- profile.go).
use content_platform.Prelude.{
  ℤ, Bool, true, false, not, ◌&&◌, ◌||◌, Option, none, some, [], is_positive, is_negative, eq_ℤ,
  text_eq, if◌then◌else◌,
}
use content_platform.GoTime.{Time, is_zero, year_in_range, is_after, is_before, time_eq}
use content_platform.Domain.{
  User, UserSession, Role, role_user, role_admin, role_eq, Status, muted, banned, deleted,
  other_status, status_eq, is_nil, normalize_time,
}
use content_platform.Domain.Validation.{
  TextRules, normalize_email, validate_email, normalize_display_name, validate_display_name,
  validate_bio,
}
use content_platform.Errors.{Error, internal, session_invalid}
use content_platform.Ports.{AuthenticationSession}

unfoldable pub valid_user_role : Role → Bool
unfolding role_eq
valid_user_role role = role_eq role role_user || role_eq role role_admin

unfoldable pub valid_authentication_time : Time → Bool
unfolding normalize_time
valid_authentication_time value =
    let normalized = normalize_time value in
    if is_zero normalized then false else year_in_range normalized

unfoldable pub valid_authentication_session_structure : AuthenticationSession → ℤ → Bool
unfolding valid_authentication_time normalize_time
valid_authentication_session_structure session session_id =
    is_positive session.id
    && eq_ℤ session.id session_id
    && is_positive session.user_id
    && valid_authentication_time session.created_at
    && valid_authentication_time session.expires_at
    && is_after (normalize_time session.expires_at) (normalize_time session.created_at)

-- `AuthenticationSession{ID: session.ID, …}`
unfoldable pub authentication_session : UserSession → AuthenticationSession
authentication_session s = record {
  id = s.id;
  user_id = s.user_id;
  expires_at = s.expires_at;
  revoked_at = s.revoked_at;
  created_at = s.created_at;
}

unfoldable pub valid_login_expiry : Time → Time → Bool
valid_login_expiry now expires_at = is_after expires_at now && year_in_range expires_at

-- `value == nil || validAuthenticationTime(*value)`
unfoldable pub valid_optional_time : Option Time → Bool
unfolding valid_authentication_time
valid_optional_time none = true
valid_optional_time (some value) = valid_authentication_time value

-- `deletedAt == nil || !deletedAt.Before(createdAt)`
unfoldable pub optional_not_before : Option Time → Time → Bool
optional_not_before none created_at = true
optional_not_before (some value) created_at = not (is_before value created_at)

unfoldable pub optional_times_equal : Option Time → Option Time → Bool
optional_times_equal none none = true
optional_times_equal (some l) (some r) = time_eq l r
optional_times_equal none (some r) = false
optional_times_equal (some l) none = false

unfoldable pub valid_profile_user_fields : TextRules → User → ℤ → Bool → Bool
unfolding is_nil valid_user_role normalize_display_name validate_display_name validate_bio
    valid_authentication_time valid_optional_time optional_not_before
valid_profile_user_fields rules user expected_id secret_free =
    is_positive user.id
    && eq_ℤ user.id expected_id
    && valid_user_role user.role
    && not (secret_free && not (text_eq user.password_hash []))
    && text_eq user.email (normalize_email rules user.email)
    && is_nil (validate_email rules user.email)
    && text_eq user.display_name (normalize_display_name user.display_name)
    && is_nil (validate_display_name user.display_name)
    && is_nil (validate_bio user.bio)
    && not (is_negative user.violation_count)
    && valid_authentication_time user.created_at
    && valid_authentication_time user.updated_at
    && not (is_before user.updated_at user.created_at)
    && valid_optional_time user.muted_until
    && valid_optional_time user.deleted_at
    && optional_not_before user.deleted_at user.created_at

-- The switch on the status of a user whose fields are valid.
unfoldable pub status_times_agree : Status → Option Time → Option Time → Bool
unfolding is_nil
status_times_agree muted muted_until deleted_at = not (is_nil muted_until) && is_nil deleted_at
status_times_agree deleted muted_until deleted_at = is_nil muted_until && not (is_nil deleted_at)
status_times_agree (other_status s) muted_until deleted_at = false
status_times_agree _ muted_until deleted_at = is_nil muted_until && is_nil deleted_at

unfoldable pub valid_profile_user_structure : TextRules → User → ℤ → Bool → Bool
unfolding valid_profile_user_fields status_times_agree
valid_profile_user_structure rules user expected_id secret_free =
    if valid_profile_user_fields rules user expected_id secret_free
    then status_times_agree user.status user.muted_until user.deleted_at
    else false

-- The switch of `strictAuthenticationUserError`.
unfoldable pub strict_status_error : Status → Option Time → Option Error
unfolding is_nil
strict_status_error banned muted_until = some session_invalid
strict_status_error deleted muted_until = some session_invalid
strict_status_error muted none = some (internal none)
strict_status_error muted (some t) = none
strict_status_error (other_status s) muted_until = some (internal none)
strict_status_error _ none = none
strict_status_error _ (some t) = some (internal none)

unfoldable pub strict_authentication_user_error : TextRules → User → ℤ → Bool → Option Error
unfolding valid_profile_user_fields strict_status_error is_nil
strict_authentication_user_error rules user expected_id secret_free =
    if not (valid_profile_user_fields rules user expected_id secret_free)
    then some (internal none)
    else if not (is_nil user.deleted_at)
    then some session_invalid
    else strict_status_error user.status user.muted_until

-- `mutedUntil != nil && !mutedUntil.After(now)`
unfoldable pub is_past : Option Time → Time → Bool
is_past none now = false
is_past (some t) now = not (is_after t now)

unfoldable pub should_recover_expired_mute : User → Time → Bool
unfolding status_eq is_past
should_recover_expired_mute user now = status_eq user.status muted && is_past user.muted_until now

unfoldable pub secret_free_user : User → User
secret_free_user user = record user { password_hash = [] }
