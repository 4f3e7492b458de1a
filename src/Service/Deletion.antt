-- ===== src/Service/Deletion.antt =====
-- DeleteMe (profile.go): a user is marked as deleted and loses every open session.
pub mod Sound
pub mod Correct
use content_platform.Prelude.{
  ℤ, Text, Bool, false, not, ◌&&◌, ◌||◌, Option, none, some, List, [], ◌∷◌, is_positive, eq_ℤ,
  ltb_ℤ, text_eq, if◌then◌else◌, any_where,
}
use content_platform.GoTime.{Time, is_after, time_eq}
use content_platform.Domain.{
  User, UserSession, status_eq, role_eq, frozen, deleted, can_delete_account, is_nil,
  normalize_time,
}
use content_platform.Domain.Validation.{TextRules}
use content_platform.Errors.{
  Error, Result, ok, err, internal, session_invalid, user_frozen, new_internal_error,
}
use content_platform.Ports.{UserMutation, unset, set_field}
use content_platform.Database.{Environment, at_entry}
use content_platform.Database.Monad.{Action, lift, map_error, ◌>>=◌, ◌>>◌, throw_if}
use content_platform.Repository.{within_tx}
use content_platform.Repository.Users.{lock_users, update_user}
use content_platform.Repository.Sessions.{lock_active_sessions, revoke_locked_sessions}
use content_platform.Service.{check_live_context, now, fail_with}
use content_platform.Service.Checks.{
  valid_authentication_session_structure, authentication_session, strict_authentication_user_error,
  valid_profile_user_structure,
}
use content_platform.Service.Mute.{recover_expired_mute_for_auth, insert_pending}
use content_platform.Service.Rows.{lock_user}
use content_platform.Service.Profile.{profile_error}

pub record DeleteMeInput : Type 0 where
  pub user_id : ℤ
  pub session_id : ℤ
  pub request_id : Text

-- One round of `validateLockedActiveSessions`: the error that it returns, if any.
unfoldable pub locked_session_error : ℤ → ℤ → Option ℤ → UserSession → Option Error
unfolding authentication_session is_nil
locked_session_error user_id current_id previous session =
    if eq_ℤ session.id current_id
      && (not (eq_ℤ session.user_id user_id) || not (is_nil session.revoked_at))
    then some session_invalid
    else if not (valid_authentication_session_structure (authentication_session session) session.id)
        || not (eq_ℤ session.user_id user_id)
        || not (is_nil session.revoked_at)
    then some (internal none)
    else elim previous [
      | none ↦ none
      | some id ↦ if ltb_ℤ id session.id then none else some (internal none)
    ]

-- `validateLockedActiveSessions` from some round on; `previous` is `none` in the first.
unfoldable pub validate_from : ℤ → ℤ → Option ℤ → List UserSession → Result (Bool × List ℤ)
unfolding locked_session_error
validate_from user_id current_id previous [] = ok (false, [])
validate_from user_id current_id previous (session ∷ rest) =
    let later = validate_from user_id current_id (some session.id) rest in
    elim (locked_session_error user_id current_id previous session) [
      | some e ↦ err e
      | none ↦ elim later [
        | err e ↦ err e
        | ok (found, ids) ↦ ok (eq_ℤ session.id current_id || found, session.id ∷ ids)
      ]
    ]

unfoldable pub validate_locked_active_sessions : List UserSession → ℤ → ℤ → Result (Bool × List ℤ)
unfolding validate_from
validate_locked_active_sessions sessions user_id current_id =
    validate_from user_id current_id none sessions

unfoldable pub valid_deleted_profile_mutation_result : TextRules → User → User → Time → Bool
valid_deleted_profile_mutation_result rules user previous now =
    valid_profile_user_structure rules user previous.id false
    && status_eq user.status deleted
    && elim user.deleted_at [ none ↦ false | some t ↦ time_eq t now ]
    && is_nil user.muted_until
    && time_eq user.updated_at now
    && text_eq user.email previous.email
    && text_eq user.password_hash previous.password_hash
    && text_eq user.display_name previous.display_name
    && text_eq user.bio previous.bio
    && role_eq user.role previous.role
    && eq_ℤ user.violation_count previous.violation_count
    && time_eq user.created_at previous.created_at

unfoldable pub deletion_mutation : ℤ → Time → UserMutation
deletion_mutation user_id now = record {
  user_id = user_id;
  display_name = unset;
  bio = unset;
  status = set_field deleted;
  muted_until = set_field none;
  violation_count = unset;
  updated_at = set_field now;
  deleted_at = set_field (some now);
}

-- The current session is among the locked ones and has ended.
unfoldable pub current_has_ended : ℤ → Time → List UserSession → Bool
current_has_ended current_id now sessions =
    any_where (λ s. eq_ℤ s.id current_id && not (is_after (normalize_time s.expires_at) now))
      sessions

module _ (env : Environment) (rules : TextRules) where
  -- The callback of the transaction of `DeleteMe`, once the row is locked.
  unfoldable pub delete_user : DeleteMeInput → User → Action (Unit {0})
  unfolding current_has_ended deletion_mutation
  delete_user input user = do
    sessions ← map_error new_internal_error (lock_active_sessions env input.user_id)
    (current_found, session_ids) ←
        lift (validate_locked_active_sessions sessions input.user_id input.session_id)
    throw_if (not current_found) session_invalid
    fail_with (strict_authentication_user_error rules user input.user_id false)
    t ← now env
    throw_if (current_has_ended input.session_id t sessions) session_invalid
    (current, pending) ← recover_expired_mute_for_auth env user t input.request_id
    throw_if (status_eq current.status frozen) user_frozen
    throw_if (not (can_delete_account current.status)) session_invalid
    gone ← map_error new_internal_error (update_user env (deletion_mutation current.id t))
    throw_if (not (valid_deleted_profile_mutation_result rules gone current t)) (internal none)
    map_error new_internal_error (revoke_locked_sessions env session_ids t)
    insert_pending env pending

  -- The callback of the transaction of `DeleteMe`.
  unfoldable pub delete_locked : DeleteMeInput → Action (Unit {0})
  delete_locked input =
      lock_user env new_internal_error input.user_id session_invalid (internal none)
      >>= delete_user input

  -- `DeleteMe`, whose result is Deleted = true.
  unfoldable pub delete_me : DeleteMeInput → Action (Unit {0})
  unfolding profile_error
  delete_me input = do
    throw_if (not (is_positive input.user_id) || not (is_positive input.session_id)) session_invalid
    check_live_context env at_entry
    map_error profile_error (within_tx env (delete_locked input))
