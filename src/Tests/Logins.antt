-- ===== src/Tests/Logins.antt =====
-- A login on the database of the fixture with the token adapters, and what the tokens lead to.
use content_platform.Prelude.{
  Mem, none, ◌+◌, ◌*◌, pos, Text, codes, ◌≡◌, refl, some, [], ◌∷◌, is_positive, find_where, eq_ℤ,
  any_where, text_eq, arith,
}
use content_platform.GoTime.{
  second, is_zero, truncate_second, unix_difference, year_in_range, is_after, is_before, time_eq,
  nanosecond,
}
use content_platform.Domain.{UserSession, can_login, status_eq, view, normalize_time}
use content_platform.Errors.{ok}
use content_platform.Database.{
  Store, has_email, has_id, session_row_ok, is_nil_or_since, has_session_id, references_user,
}
use content_platform.Service.{Service, fail_with, check_context, now}
use content_platform.Service.Login.{
  LoginResult, login, read_credential, compare_password, accept_outcome, login_locked, login_user,
  open_session, valid_created_login_session,
}
use content_platform.Token.Refresh.{
  parse, generate, format, decode_refresh_secret, canonical_secret, refresh_codec,
}
use content_platform.Token.Access.{
  verify, sign, valid_jwt_id, canonical_jwt_id, claims_of, access_token_manager, generate_jwt_id,
}
use content_platform.App.Login.{with_adapters, login-parse, login-verify}
use content_platform.Tests.Fixture.{
  env, service, rules, store, ann, ann_session, root_session, today,
}
use content_platform.Tests.Runs.{login_input}
use content_platform.Tests.Tokens.{
  sha256, secret, manager, access_token, jwt, secret-IsSecret, jwt-IsJwt, issuer-IsUtf8,
  audience-IsUtf8, claims_eq, texts_eq, option_eq,
}
use content_platform.Domain.Validation.{
  validate_email, byte_length, normalize_email, to_lower, trim_space, is_space, to_lower_rune,
  rune_width, validate_registration_password,
}
use content_platform.Repository.Users.{find_login_credential, lock_users}
use content_platform.Repository.{within_tx, drop_repeats, contains_id}
use content_platform.Service.Rows.{lock_user}
use content_platform.Service.Mute.{insert_pending, recover_expired_mute_for_auth}
use content_platform.Repository.Sessions.{create_session}
use content_platform.Token.Base64.{
  encode, decode, decode_quanta, join_four, join_three, join_two, skip_newlines, symbol,
  symbol_value,
}
use content_platform.GoStrings.{contains}
use content_platform.Token.UnixTime.{unix, internal_seconds}
use content_platform.Token.Decimal.{digits, format_int}

abbrev token_service : Service
token_service = with_adapters sha256 secret jwt manager service

abbrev refresh_token : Text
refresh_token = codes "7.AQIDBAUGBwgJCgsMDQ4PEBESExQVFhcYGRobHB0eH_8"

abbrev logged_in : LoginResult
logged_in = record {
  access_token = access_token;
  expires_in = 60;
  refresh_token = refresh_token;
  refresh_expires_at = today + 600 * second;
  user = view ann;
}

abbrev after_login : Store
after_login = record store {
  sessions =
      ann_session
      ∷ root_session
      ∷ record ann_session { id = pos 7; token_hash = secret; expires_at = today + 600 * second }
      ∷ [];
}

login_run : login env rules token_service login_input store ≡ (ok logged_in, after_login)
unfolding login read_credential validate_email byte_length normalize_email to_lower trim_space
    is_space to_lower_rune rune_width validate_registration_password compare_password
    find_login_credential find_where has_email text_eq fail_with check_context accept_outcome
    can_login is_positive within_tx login_locked lock_user lock_users drop_repeats contains_id
    any_where eq_ℤ login_user now is_zero truncate_second year_in_range open_session has_id
    valid_created_login_session time_eq nanosecond unix_difference is_before insert_pending is_after
    recover_expired_mute_for_auth status_eq create_session session_row_ok is_nil_or_since
    has_session_id references_user view generate format decode_refresh_secret canonical_secret
    encode decode decode_quanta join_four join_three join_two skip_newlines symbol symbol_value sign
    valid_jwt_id canonical_jwt_id contains unix internal_seconds claims_of digits format_int
    refresh_codec access_token_manager generate_jwt_id claims_eq texts_eq option_eq
login_run = refl

login-parse_example :
    (session : UserSession) × Mem session after_login.sessions
    × (session.id ≡ pos 7)
    × (session.user_id ≡ logged_in.user.id)
    × (session.revoked_at ≡ none)
    × (normalize_time session.expires_at ≡ today + 600 * second)
    × (parse sha256 refresh_token ≡ ok (session.id, session.token_hash))
login-parse_example =
    login-parse env rules service sha256 secret jwt manager login_input store 7 logged_in
      after_login secret-IsSecret refl (omega arith) (omega arith) login_run

login-verify_example :
    verify jwt manager access_token (today + second)
    ≡ some (record { user_id = pos 1; session_id = pos 7 })
unfolding normalize_time truncate_second year_in_range is_zero view
login-verify_example =
    login-verify env rules service sha256 secret jwt manager login_input store 1 7 (today + second)
      logged_in after_login jwt-IsJwt issuer-IsUtf8 audience-IsUtf8 (omega arith) (omega arith) refl
      refl refl refl refl refl (omega arith) (omega arith) login_run
