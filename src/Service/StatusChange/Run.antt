-- ===== src/Service/StatusChange/Run.antt =====
-- ChangeUserStatus: the transaction and the call.
use content_platform.Prelude.{
  ℤ, Text, Bool, true, false, not, ◌&&◌, ◌||◌, Option, none, some, List, [], ◌∷◌, map, length, ltb,
  is_positive, eq_ℤ, sort_by, insert_by, if◌then◌else◌,
}
use content_platform.GoTime.{Time, is_after}
use content_platform.Domain.{
  User, UserView, view, UserSession, Role, role_user, role_admin, other_role, Status, muted, banned,
  other_status, deleted, status_eq, is_nil, normalize_time, normalize_optional_time,
}
use content_platform.Domain.Validation.{TextRules, trim_space}
use content_platform.Errors.{
  Error, internal, session_invalid, user_not_found, admin_target_forbidden,
  invalid_status_transition, validation, reason_field, status_field, muted_until_field,
  new_internal_error,
}
use content_platform.Ports.{AuditEntry}
use content_platform.Database.{Environment, at_entry}
use content_platform.Database.Monad.{Action, pure, throw, lift, map_error, ◌>>=◌, ◌>>◌, throw_if}
use content_platform.Repository.{within_tx}
use content_platform.Repository.Users.{lock_users, update_user}
use content_platform.Repository.Sessions.{lock_session, lock_sessions, revoke_locked_sessions}
use content_platform.Repository.Audit.{insert_audit}
use content_platform.Service.{check_live_context, now, fail_with}
use content_platform.Service.Checks.{
  valid_authentication_session_structure, authentication_session, valid_profile_user_structure,
  should_recover_expired_mute, secret_free_user, optional_times_equal,
}
use content_platform.Service.Mute.{recover_expired_mute_for_auth}
use content_platform.Service.Profile.{session_lookup_error}
use content_platform.Service.StatusChange.{
  ChangeUserStatusInput, valid_administrative_status, valid_administrative_transition,
  validate_status_actor, valid_requested_time, optional_after, place_users,
  validate_administrative_session_set, valid_status_mutation_result, status_mutation, status_audit,
  audit_before, present, status_error,
}

unfoldable pub session_ids : List UserSession → List ℤ
session_ids sessions = map (λ s. s.id) sessions

-- A ban of a user who is banned already changes nothing.
unfoldable pub is_banning_no_op : Option User → Bool
unfolding status_eq is_nil
is_banning_no_op none = false
is_banning_no_op (some target) = status_eq target.status banned && is_nil target.muted_until

unfoldable pub required_user : Error → Option User → Action User
required_user missing none = throw missing
required_user missing (some user) = pure user

-- The switch on the target's role.
unfoldable pub target_role_error : Role → Option Error
target_role_error role_admin = some admin_target_forbidden
target_role_error role_user = none
target_role_error (other_role r) = some (internal none)

-- The switch on the target's status.
unfoldable pub target_status_error : Status → Option Error
target_status_error deleted = some (internal none)
target_status_error (other_status s) = some (internal none)
target_status_error _ = none

module _ (env : Environment) (rules : TextRules) where
  unfoldable pub insert_each : List AuditEntry → Action (Unit {0})
  unfolding new_internal_error
  insert_each [] = pure tt
  insert_each (audit ∷ rest) = do
    map_error new_internal_error (insert_audit env audit)
    insert_each rest

  unfoldable pub insert_pending_status_audits : List (Option AuditEntry) → Action (Unit {0})
  unfolding insert_each sort_by insert_by present audit_before
  insert_pending_status_audits audits = insert_each (sort_by audit_before (present audits))

  -- The actor's session, and the open sessions of a target that is to be banned.
  unfoldable pub lock_administrative_sessions :
      ChangeUserStatusInput → Option User → Action (UserSession × List UserSession)
  unfolding is_banning_no_op
  lock_administrative_sessions input target =
      if status_eq input.new_status banned && not (is_banning_no_op target)
      then (do
        locked ← map_error new_internal_error (
            lock_sessions env (record {
              session_ids = input.actor_session_id ∷ [];
              active_user_ids = input.target_id ∷ [];
            }))
        lift (
            validate_administrative_session_set input.actor_id input.actor_session_id
              input.target_id locked))
      else (do
        session ← map_error session_lookup_error (lock_session env input.actor_session_id)
        pure (session, []))

  -- `if shouldRecoverExpiredMute(user, now)`
  unfoldable pub recover_if_expired : User → Time → Text → Action (User × Option AuditEntry)
  recover_if_expired user t request_id =
      if should_recover_expired_mute user t
      then recover_expired_mute_for_auth env user t request_id
      else pure (user, none)

  -- The tests on the actor's session once the time is known.
  unfoldable pub check_administrative_session :
      ChangeUserStatusInput → Option Time → UserSession → Time → Action (Unit {0})
  unfolding authentication_session is_nil
  check_administrative_session input muted_until session t = do
    throw_if (status_eq input.new_status muted && not (optional_after muted_until t))
        (validation muted_until_field)
    throw_if
        (not (
            valid_authentication_session_structure (authentication_session session)
              input.actor_session_id)
          || not (eq_ℤ session.user_id input.actor_id)
          || not (is_nil session.revoked_at)
          || not (is_after (normalize_time session.expires_at) t))
        session_invalid

  -- The tests on a target that was found, before its mute is looked at.
  unfoldable pub check_target : ChangeUserStatusInput → User → Action (Unit {0})
  unfolding is_nil target_role_error target_status_error
  check_target input target = do
    throw_if (not (is_nil target.deleted_at)) invalid_status_transition
    fail_with (target_role_error target.role)
    fail_with (target_status_error target.status)
    throw_if (not (valid_profile_user_structure rules target input.target_id false)) (internal none)

  -- `if input.NewStatus == domain.StatusBanned && len(targetSessions) > 0`
  unfoldable pub revoke_target_sessions :
      ChangeUserStatusInput → List UserSession → Time → Action (Unit {0})
  unfolding session_ids
  revoke_target_sessions input [] t = pure tt
  revoke_target_sessions input (s ∷ rest) t =
      if status_eq input.new_status banned
      then map_error new_internal_error (revoke_locked_sessions env (session_ids (s ∷ rest)) t)
      else pure tt

  -- The UPDATE and what follows it.
  unfoldable pub apply_status :
      ChangeUserStatusInput
      → Text
      → Option Time
      → User
      → List UserSession
      → Option AuditEntry
      → Option AuditEntry
      → Time
      → Action User
  unfolding status_mutation status_audit
  apply_status input reason muted_until previous sessions actor_audit audit t = do
    target ←
        map_error new_internal_error
          (update_user env (status_mutation previous.id input.new_status muted_until t))
    throw_if
        (not (valid_status_mutation_result rules target previous input.new_status muted_until t))
        (internal none)
    revoke_target_sessions input sessions t
    insert_pending_status_audits (actor_audit ∷ audit ∷ [])
    map_error new_internal_error (insert_audit env (status_audit input reason previous target t))
    pure (secret_free_user target)

  -- Nothing but the pending audits if the target has the status already.
  unfoldable pub change_recovered :
      ChangeUserStatusInput
      → Text
      → Option Time
      → User
      → List UserSession
      → Option AuditEntry
      → Option AuditEntry
      → Time
      → Action User
  change_recovered input reason muted_until target sessions actor_audit audit t =
      if status_eq target.status input.new_status
        && optional_times_equal target.muted_until muted_until
      then (do
        insert_pending_status_audits (actor_audit ∷ audit ∷ [])
        pure (secret_free_user target))
      else (do
        throw_if (not (valid_administrative_transition target.status input.new_status))
            invalid_status_transition
        apply_status input reason muted_until target sessions actor_audit audit t)

  -- The target's part.
  unfoldable pub change_target :
      ChangeUserStatusInput
      → Text
      → Option Time
      → User
      → List UserSession
      → Option AuditEntry
      → Time
      → Action User
  change_target input reason muted_until found sessions actor_audit t = do
    check_target input found
    (target, audit) ← recover_if_expired found t input.request_id
    throw_if (not (valid_profile_user_structure rules target input.target_id false)) (internal none)
    change_recovered input reason muted_until target sessions actor_audit audit t

  -- The callback of the transaction.
  unfoldable pub change_locked : ChangeUserStatusInput → Text → Option Time → Action User
  unfolding required_user
  change_locked input reason muted_until = do
    users ← map_error new_internal_error (lock_users env (input.actor_id ∷ input.target_id ∷ []))
    (actor_row, target_row) ← lift (place_users input.actor_id input.target_id none none users)
    found_actor ← required_user session_invalid actor_row
    (session, sessions) ← lock_administrative_sessions input target_row
    t ← now env
    check_administrative_session input muted_until session t
    throw_if (not (valid_profile_user_structure rules found_actor input.actor_id false))
        (internal none)
    (actor, actor_audit) ← recover_if_expired found_actor t input.request_id
    fail_with (validate_status_actor actor)
    found_target ← required_user user_not_found target_row
    change_target input reason muted_until found_target sessions actor_audit t

  -- `ChangeUserStatus`
  unfoldable pub change_user_status : ChangeUserStatusInput → Action UserView
  unfolding status_error
  change_user_status input = do
    throw_if
        (not (is_positive input.actor_id)
          || not (is_positive input.actor_session_id)
          || not (is_positive input.target_id))
        session_invalid
    throw_if (eq_ℤ input.actor_id input.target_id) admin_target_forbidden
    check_live_context env at_entry
    let reason = trim_space input.reason
    throw_if (ltb 1000 (length reason)) (validation reason_field)
    throw_if (not (valid_administrative_status input.new_status)) (validation status_field)
    throw_if (not (valid_requested_time input)) (validation muted_until_field)
    let muted_until = normalize_optional_time input.muted_until
    latest ← map_error status_error (within_tx env (change_locked input reason muted_until))
    throw_if (not (valid_profile_user_structure rules latest input.target_id true)) (internal none)
    pure (view latest)
