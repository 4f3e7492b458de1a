-- ===== src/Tests/Runs.antt =====
-- What the operations of auth.go do on the database of the fixture.
use content_platform.Prelude.{
  ◌+◌, ◌*◌, pos, ◌≡◌, refl, none, some, [], ◌∷◌, is_positive, find_where, eq_ℤ, any_where, text_eq,
  update_where, is_negative,
}
use content_platform.GoTime.{
  second, is_zero, truncate_second, unix_difference, year_in_range, is_after, is_before, time_eq,
  nanosecond,
}
use content_platform.Domain.{User, UserSession, view, can_login, status_eq, is_nil}
use content_platform.Errors.{
  ok, err, internal, invalid_refresh_token, invalid_credentials, email_already_registered,
}
use content_platform.Database.{
  Store, has_session_id, session_row_ok, is_nil_or_since, has_email, has_id, references_user,
  user_row_ok, btrim, is_storable, is_known_role, is_known_status,
}
use content_platform.Service.Refresh.{
  RefreshInput, RefreshResult, refresh, refresh_locked, refresh_user, check_refreshable,
  issue_refreshed, refresh_lookup_error,
}
use content_platform.Service.Login.{
  LoginInput, LoginResult, login, read_credential, compare_password, accept_outcome, login_locked,
  login_user, open_session, valid_created_login_session,
}
use content_platform.Service.Account.{RegisterInput, register, LogoutInput, logout}
use content_platform.Service.Authenticate.{
  AuthenticateInput, authenticate, check_state, current_user,
}
use content_platform.Tests.Fixture.{
  env, service, rules, store, ann, root, ann_session, root_session, digest_of, today,
}
use content_platform.Service.{check_live_context, now, fail_with, check_context}
use content_platform.Repository.Sessions.{
  find_session_owner, lock_session, rotate_session_token, create_session, revoke_session,
  find_authentication_state,
}
use content_platform.Repository.{within_tx, drop_repeats, contains_id}
use content_platform.Service.Rows.{lock_user}
use content_platform.Repository.Users.{lock_users, find_login_credential, create_user}
use content_platform.Service.Mute.{insert_pending, recover_expired_mute_for_auth}
use content_platform.Service.Checks.{
  valid_login_expiry, valid_authentication_session_structure, strict_authentication_user_error,
  should_recover_expired_mute, secret_free_user,
}
use content_platform.Domain.Validation.{
  validate_email, byte_length, normalize_email, to_lower, trim_space, is_space, to_lower_rune,
  rune_width, validate_registration_password, validate_display_name, normalize_display_name,
}

abbrev pub refresh_input : RefreshInput
refresh_input = record { refresh_token = []; request_id = [] }

abbrev pub refreshed : RefreshResult
refreshed = record {
  access_token = 74 ∷ [];
  expires_in = 60;
  refresh_token = 115 ∷ [];
  refresh_expires_at = today + 1000 * second;
}

abbrev pub after_refresh : Store
after_refresh = record store {
  sessions = record ann_session { token_hash = digest_of 9 } ∷ root_session ∷ [];
}

pub refresh_run : refresh env service refresh_input store ≡ (ok refreshed, after_refresh)
unfolding refresh is_positive check_live_context find_session_owner find_where has_session_id eq_ℤ
    within_tx refresh_locked lock_user lock_users drop_repeats contains_id any_where refresh_user
    lock_session check_refreshable text_eq can_login status_eq now is_zero truncate_second
    rotate_session_token session_row_ok is_nil_or_since insert_pending unix_difference update_where
    year_in_range issue_refreshed valid_login_expiry is_after is_before
    recover_expired_mute_for_auth
refresh_run = refl

-- No session of this identifier is stored.
abbrev pub no_sessions : Store
no_sessions = record store { sessions = [] }

pub refresh_refused :
    refresh env service refresh_input no_sessions ≡ (err invalid_refresh_token, no_sessions)
unfolding refresh is_positive check_live_context find_session_owner find_where refresh_lookup_error
refresh_refused = refl

abbrev pub login_input : LoginInput
login_input = record {
  email = 32 ∷ 97 ∷ 64 ∷ 98 ∷ [];
  password = 49 ∷ 50 ∷ 51 ∷ 52 ∷ 53 ∷ 54 ∷ 55 ∷ 56 ∷ [];
  request_id = [];
}

abbrev pub logged_in : LoginResult
logged_in = record {
  access_token = 74 ∷ [];
  expires_in = 60;
  refresh_token = 115 ∷ [];
  refresh_expires_at = today + 600 * second;
  user = view ann;
}

abbrev pub after_login : Store
after_login = record store {
  sessions =
      ann_session
      ∷ root_session
      ∷ record ann_session {
        id = pos 7;
        token_hash = digest_of 9;
        expires_at = today + 600 * second;
      }
      ∷ [];
}

pub login_run : login env rules service login_input store ≡ (ok logged_in, after_login)
unfolding login read_credential validate_email byte_length normalize_email to_lower trim_space
    is_space to_lower_rune rune_width validate_registration_password compare_password
    find_login_credential find_where has_email text_eq fail_with check_context accept_outcome
    can_login is_positive within_tx login_locked lock_user lock_users drop_repeats contains_id
    any_where eq_ℤ login_user now is_zero truncate_second year_in_range open_session has_id
    valid_created_login_session time_eq nanosecond unix_difference is_before insert_pending is_after
    recover_expired_mute_for_auth status_eq create_session session_row_ok is_nil_or_since
    has_session_id references_user view
login_run = refl

pub login_refused :
    login env rules service (record login_input { password = [] }) store
    ≡ (err invalid_credentials, store)
unfolding login read_credential validate_email byte_length normalize_email to_lower trim_space
    is_space to_lower_rune rune_width validate_registration_password compare_password fail_with
    check_context accept_outcome text_eq
login_refused = refl

abbrev pub register_input : RegisterInput
register_input = record {
  email = 67 ∷ 64 ∷ 98 ∷ [];
  password = login_input.password;
  display_name = 32 ∷ 67 ∷ [];
}

abbrev pub cid : User
cid = record ann { id = pos 3; email = 99 ∷ 64 ∷ 98 ∷ []; display_name = 67 ∷ [] }

pub register_run :
    register env rules service register_input store
    ≡ (ok (view cid), record store { users = ann ∷ root ∷ cid ∷ [] })
unfolding register validate_email byte_length normalize_email to_lower trim_space is_space
    to_lower_rune rune_width validate_registration_password validate_display_name
    normalize_display_name check_live_context now is_zero truncate_second year_in_range create_user
    user_row_ok is_positive is_nil_or_since btrim status_eq is_storable any_where has_id eq_ℤ
    has_email text_eq is_known_role is_known_status is_negative is_before
register_run = refl

pub register_refused :
    register env rules service (record register_input { email = ann.email }) store
    ≡ (err email_already_registered, store)
unfolding register validate_email byte_length normalize_email to_lower trim_space is_space
    to_lower_rune rune_width validate_registration_password validate_display_name
    normalize_display_name check_live_context now is_zero truncate_second year_in_range create_user
    user_row_ok is_positive is_nil_or_since btrim status_eq is_storable any_where has_id eq_ℤ
    has_email text_eq is_known_role is_known_status is_negative is_before
register_refused = refl

abbrev pub logout_input : LogoutInput
logout_input = record { user_id = pos 1; session_id = pos 5 }

abbrev pub closed : UserSession
closed = record ann_session { revoked_at = some today }

abbrev pub after_logout : Store
after_logout = record store { sessions = closed ∷ root_session ∷ [] }

pub logout_run : logout env logout_input store ≡ (ok tt, after_logout)
unfolding logout is_positive check_live_context now is_zero truncate_second year_in_range
    revoke_session find_where eq_ℤ is_nil session_row_ok is_after is_nil_or_since is_before
    update_where
logout_run = refl

pub logout_refused :
    logout env (record logout_input { user_id = pos 0 }) store ≡ (err (internal none), store)
unfolding logout is_positive
logout_refused = refl

abbrev pub authenticate_input : AuthenticateInput
authenticate_input = record { user_id = pos 1; session_id = pos 5 }

pub authenticate_run :
    authenticate env rules authenticate_input [] store
    ≡ (ok (record ann { password_hash = [] }), store)
unfolding authenticate is_positive check_live_context find_authentication_state find_where
    has_session_id eq_ℤ has_id check_state valid_authentication_session_structure is_zero
    truncate_second year_in_range is_after is_nil fail_with strict_authentication_user_error text_eq
    normalize_email to_lower trim_space is_negative is_before now current_user
    should_recover_expired_mute secret_free_user is_space to_lower_rune validate_email byte_length
    rune_width
authenticate_run = refl
