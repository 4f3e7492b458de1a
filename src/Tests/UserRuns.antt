-- ===== src/Tests/UserRuns.antt =====
-- What the operations of profile.go and status.go do on the database of the fixture.
use content_platform.Prelude.{
  pos, ◌≡◌, refl, none, some, [], ◌∷◌, is_positive, find_where, eq_ℤ, any_where, text_eq,
  update_where, is_negative, ltb_ℤ, insert_by, sort_by, select_where,
}
use content_platform.GoTime.{
  is_zero, truncate_second, unix_difference, year_in_range, is_after, is_before, time_eq,
  nanosecond,
}
use content_platform.Domain.{
  active, public_view, User, view, deleted, banned, can_login, status_eq, is_nil,
  can_delete_account, can_edit_profile, role_eq, session_is_valid, can_read_self,
  allows_content_writes, can_write_article, can_write_comment, can_interact, can_repost,
  can_send_message, normalize_time, normalize_optional_time,
}
use content_platform.Errors.{ok, err, session_invalid}
use content_platform.Ports.{AuditEntry, actor_admin, status_changed, unset, set_field}
use content_platform.Database.{
  Store, has_session_id, session_row_ok, is_nil_or_since, has_email, has_id, references_user,
  user_row_ok, btrim, is_storable, is_known_role, is_known_status, is_system, audit_row_ok,
}
use content_platform.Service.Profile.{
  PublicUserInput, public_user, UpdateMeInput, update_me, update_valid, update_locked,
  update_profile, session_lookup_error, valid_profile_mutation_result, profile_mutation,
  write_mutation, check_own_session, public_user_lookup_error, public_recovery_error, profile_error,
  changed_field, normalized_name, check_display_name, check_bio, refreshed_public_user,
}
use content_platform.Service.Deletion.{
  DeleteMeInput, delete_me, delete_locked, delete_user, validate_locked_active_sessions,
  valid_deleted_profile_mutation_result,
}
use content_platform.Service.StatusChange.{
  ChangeUserStatusInput, valid_administrative_status, valid_requested_time, place_users,
  validate_administrative_session_set, valid_administrative_transition, validate_status_actor,
  is_usable_time, optional_after, administrative_session_error, sort_out_sessions,
  valid_status_mutation_result, status_mutation, status_audit, audit_before, present, status_error,
}
use content_platform.Service.StatusChange.Run.{
  change_user_status, change_locked, lock_administrative_sessions, session_ids, is_banning_no_op,
  required_user, target_role_error, target_status_error, insert_each, insert_pending_status_audits,
  recover_if_expired, check_administrative_session, check_target, revoke_target_sessions,
  apply_status, change_recovered, change_target,
}
use content_platform.Tests.Fixture.{env, rules, store, ann, root, root_session, today}
use content_platform.Service.{
  check_live_context, now, fail_with, check_context, valid_token_ttl, new,
}
use content_platform.Repository.Sessions.{
  find_session_owner, lock_session, rotate_session_token, create_session, revoke_session,
  find_authentication_state, lock_active_sessions, revoke_locked_sessions, revoke_locked_session,
  lock_sessions, session_before, is_open_session_of, set_revoked, set_token, is_requested,
  is_unrevoked, join_state, update_session_row, first_session, new_session, insert_session_row,
  revoke_each,
}
use content_platform.Repository.{
  within_tx, drop_repeats, contains_id, join_marker, sorted_unique_ids, repository_context_error,
  repository_internal_error, run, autocommit, rollback_failure_error, roll_back, finish,
}
use content_platform.Service.Rows.{lock_user, only_user}
use content_platform.Repository.Users.{
  lock_users, find_login_credential, create_user, update_user, id_before, field_or, field_is_set,
  user_mutation_has_changes, apply_mutation, has_expired_mute, clear_mute, new_row, safe_columns,
  update_row, insert_row, find_user, recover_expired_mute,
}
use content_platform.Service.Mute.{
  insert_pending, recover_expired_mute_for_auth, valid_recovered_auth_user, mute_audit,
  recovery_error, accept_recovered, recover_muted, recover_user, recover_locked,
  recover_expired_mute_after_read,
}
use content_platform.Service.Checks.{
  valid_login_expiry, valid_authentication_session_structure, strict_authentication_user_error,
  should_recover_expired_mute, secret_free_user, valid_profile_user_structure, optional_times_equal,
  valid_user_role, valid_authentication_time, authentication_session, valid_optional_time,
  optional_not_before, valid_profile_user_fields, status_times_agree, strict_status_error, is_past,
}
use content_platform.Domain.Validation.{
  validate_email, byte_length, normalize_email, to_lower, trim_space, is_space, to_lower_rune,
  rune_width, validate_registration_password, validate_display_name, normalize_display_name,
  validate_bio, trim_left, keep_unless_blank, trim_right,
}
use content_platform.Repository.Audit.{optional_time_encodable, encode_audit_detail, insert_audit}
use content_platform.Repository.Users
use content_platform.Repository.Sessions
use content_platform.Tests.Runs.{no_sessions, closed}

abbrev pub delete_input : DeleteMeInput
delete_input = record { user_id = pos 1; session_id = pos 5; request_id = [] }

abbrev pub after_delete : Store
after_delete = record {
  users = record ann { status = deleted; deleted_at = some today } ∷ root ∷ [];
  sessions = closed ∷ root_session ∷ [];
  audits = [];
}

pub delete_run : delete_me env rules delete_input store ≡ (ok tt, after_delete)
unfolding delete_me is_positive check_live_context within_tx delete_locked lock_user lock_users
    drop_repeats contains_id any_where eq_ℤ delete_user lock_active_sessions
    validate_locked_active_sessions valid_authentication_session_structure is_zero truncate_second
    year_in_range is_after fail_with strict_authentication_user_error text_eq normalize_email
    to_lower trim_space is_space to_lower_rune validate_email byte_length rune_width is_negative
    is_before now recover_expired_mute_for_auth status_eq can_delete_account update_user find_where
    has_id user_row_ok is_known_role is_known_status is_nil_or_since btrim is_storable
    valid_deleted_profile_mutation_result valid_profile_user_structure time_eq
    revoke_locked_sessions revoke_locked_session session_row_ok insert_pending update_where
delete_run = refl

pub delete_refused :
    delete_me env rules delete_input no_sessions ≡ (err session_invalid, no_sessions)
unfolding delete_me is_positive check_live_context within_tx delete_locked lock_user lock_users
    drop_repeats contains_id any_where eq_ℤ delete_user lock_active_sessions
    validate_locked_active_sessions
delete_refused = refl

abbrev pub update_input : UpdateMeInput
update_input = record {
  user_id = pos 1;
  session_id = pos 5;
  request_id = [];
  display_name = unset;
  bio = set_field (66 ∷ []);
}

pub update_refused :
    update_me env rules update_input no_sessions ≡ (err session_invalid, no_sessions)
unfolding update_me validate_bio update_valid is_positive check_live_context within_tx update_locked
    lock_user lock_users drop_repeats contains_id any_where eq_ℤ update_profile lock_session
    session_lookup_error
update_refused = refl

abbrev pub ban_input : ChangeUserStatusInput
ban_input = record {
  actor_id = pos 2;
  actor_session_id = pos 6;
  target_id = pos 1;
  new_status = banned;
  reason = 114 ∷ [];
  muted_until = none;
  request_id = [];
}

pub ban_refused :
    change_user_status env rules ban_input no_sessions ≡ (err session_invalid, no_sessions)
unfolding change_user_status is_positive eq_ℤ check_live_context trim_space is_space
    valid_administrative_status valid_requested_time within_tx change_locked lock_users drop_repeats
    ltb_ℤ place_users contains_id any_where id_before lock_administrative_sessions lock_sessions
    validate_administrative_session_set
ban_refused = refl

abbrev pub described : User
described = record ann { bio = 66 ∷ [] }

abbrev pub after_update : Store
after_update = record store { users = described ∷ root ∷ [] }

pub update_run : update_me env rules update_input store ≡ (ok (view described), after_update)
unfolding check_live_context now fail_with can_edit_profile view drop_repeats within_tx is_storable
    btrim is_known_role is_known_status is_nil_or_since user_row_ok has_id is_zero year_in_range
    is_after is_before time_eq truncate_second valid_profile_mutation_result profile_mutation
    write_mutation check_own_session update_profile update_locked update_valid update_me
    recover_expired_mute_for_auth insert_pending valid_authentication_session_structure
    optional_times_equal valid_profile_user_structure strict_authentication_user_error
    should_recover_expired_mute secret_free_user lock_user lock_session lock_users update_user
    is_space trim_space rune_width byte_length to_lower_rune to_lower normalize_email validate_email
    text_eq is_positive is_negative eq_ℤ find_where update_where any_where
update_run = refl

abbrev pub banned_ann : User
banned_ann = record ann { status = banned }

abbrev pub ban_entry : AuditEntry
ban_entry = record {
  actor_type = actor_admin;
  actor_id = some (pos 2);
  action = status_changed;
  target_id = pos 1;
  detail = record {
    old_status = active;
    new_status = banned;
    reason = some (114 ∷ []);
    old_muted_until = none;
    new_muted_until = none;
    request_id = [];
  };
  created_at = today;
}

abbrev pub after_ban : Store
after_ban = record {
  users = banned_ann ∷ root ∷ [];
  sessions = closed ∷ root_session ∷ [];
  audits = ban_entry ∷ [];
}

pub ban_run : change_user_status env rules ban_input store ≡ (ok (view banned_ann), after_ban)
unfolding valid_token_ttl new check_context check_live_context now fail_with role_eq status_eq
    is_nil session_is_valid can_login can_read_self can_edit_profile can_delete_account
    allows_content_writes can_write_article can_write_comment can_interact can_repost
    can_send_message normalize_time normalize_optional_time view public_view join_marker
    drop_repeats sorted_unique_ids contains_id repository_context_error repository_internal_error
    run autocommit rollback_failure_error roll_back finish within_tx is_storable btrim is_known_role
    is_known_status is_nil_or_since user_row_ok session_row_ok is_system audit_row_ok has_id
    has_session_id has_email references_user is_zero year_in_range is_after is_before time_eq
    nanosecond truncate_second unix_difference public_user_lookup_error public_recovery_error
    profile_error session_lookup_error valid_profile_mutation_result changed_field profile_mutation
    normalized_name check_display_name check_bio refreshed_public_user public_user write_mutation
    check_own_session update_profile update_locked update_valid update_me valid_recovered_auth_user
    mute_audit recovery_error accept_recovered recover_muted recover_expired_mute_for_auth
    insert_pending recover_user recover_locked recover_expired_mute_after_read valid_user_role
    valid_authentication_time valid_authentication_session_structure authentication_session
    valid_login_expiry valid_optional_time optional_not_before optional_times_equal
    valid_profile_user_fields status_times_agree valid_profile_user_structure strict_status_error
    strict_authentication_user_error is_past should_recover_expired_mute secret_free_user
    valid_administrative_status valid_administrative_transition validate_status_actor is_usable_time
    valid_requested_time optional_after place_users administrative_session_error sort_out_sessions
    validate_administrative_session_set valid_status_mutation_result status_mutation status_audit
    audit_before present status_error only_user lock_user session_ids is_banning_no_op required_user
    target_role_error target_status_error insert_each insert_pending_status_audits
    lock_administrative_sessions recover_if_expired check_administrative_session check_target
    revoke_target_sessions apply_status change_recovered change_target change_locked
    change_user_status session_before is_open_session_of set_revoked set_token is_requested
    is_unrevoked join_state find_authentication_state find_session_owner update_session_row
    revoke_session Users.lock_rows Sessions.lock_rows lock_sessions first_session lock_session
    lock_active_sessions new_session insert_session_row create_session rotate_session_token
    revoke_locked_session revoke_each revoke_locked_sessions id_before field_or field_is_set
    user_mutation_has_changes apply_mutation has_expired_mute clear_mute new_row safe_columns
    update_row insert_row create_user find_login_credential find_user lock_users update_user
    recover_expired_mute optional_time_encodable encode_audit_detail insert_audit is_space trim_left
    keep_unless_blank trim_right trim_space rune_width byte_length to_lower_rune to_lower
    normalize_email validate_email validate_registration_password normalize_display_name
    validate_display_name validate_bio text_eq is_positive is_negative eq_ℤ ltb_ℤ insert_by sort_by
    select_where find_where update_where any_where
ban_run = refl

abbrev pub public_input : PublicUserInput
public_input = record { user_id = pos 1; request_id = [] }

pub public_run : public_user env rules public_input store ≡ (ok (public_view ann), store)
unfolding public_user is_positive check_live_context find_where has_session_id eq_ℤ has_id
    valid_authentication_session_structure is_zero truncate_second year_in_range is_after is_nil
    fail_with strict_authentication_user_error text_eq normalize_email to_lower trim_space
    is_negative is_before now should_recover_expired_mute secret_free_user is_space to_lower_rune
    validate_email byte_length rune_width find_user refreshed_public_user
    valid_profile_user_structure status_times_agree public_view
public_run = refl
