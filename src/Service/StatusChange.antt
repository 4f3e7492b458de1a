-- ===== src/Service/StatusChange.antt =====
-- ChangeUserStatus (status.go): an administrator sets the status of a user.
pub mod Run
pub mod Sessions
pub mod Apply
pub mod Target
pub mod Locked
pub mod Correct
use content_platform.Prelude.{
  ℤ, Text, Bool, true, false, not, ◌&&◌, ◌||◌, Option, none, some, List, [], ◌∷◌, map, length, ltb,
  is_positive, eq_ℤ, ltb_ℤ, text_eq, sort_by, insert_by, if◌then◌else◌,
}
use content_platform.GoTime.{Time, is_after, time_eq}
use content_platform.Domain.{
  User, UserView, view, UserSession, Role, role_user, role_admin, other_role, role_eq, Status,
  pending, active, muted, frozen, banned, deleted, other_status, status_eq, is_nil, normalize_time,
  normalize_optional_time,
}
use content_platform.Domain.Validation.{TextRules, trim_space}
use content_platform.Errors.{
  Error, Result, ok, err, internal, not_found, session_invalid, user_frozen, user_not_found,
  admin_required, admin_target_forbidden, invalid_status_transition, validation, reason_field,
  status_field, muted_until_field, new_internal_error,
}
use content_platform.Ports.{AuditEntry, UserMutation, unset, set_field, actor_admin, status_changed}
use content_platform.Database.{Environment, at_entry}
use content_platform.Database.Monad.{Action, pure, throw, lift, map_error, ◌>>=◌, ◌>>◌, throw_if}
use content_platform.Repository.{within_tx}
use content_platform.Repository.Users.{lock_users, update_user}
use content_platform.Repository.Sessions.{lock_session, lock_sessions, revoke_locked_sessions}
use content_platform.Repository.Audit.{insert_audit}
use content_platform.Service.{check_live_context, now, fail_with}
use content_platform.Service.Checks.{
  valid_authentication_session_structure, authentication_session, valid_authentication_time,
  valid_profile_user_structure, should_recover_expired_mute, secret_free_user, optional_times_equal,
}
use content_platform.Service.Mute.{recover_expired_mute_for_auth, insert_pending}
use content_platform.Service.Profile.{session_lookup_error}

pub record ChangeUserStatusInput : Type 0 where
  pub actor_id : ℤ
  pub actor_session_id : ℤ
  pub target_id : ℤ
  pub new_status : Status
  pub reason : Text
  pub muted_until : Option Time
  pub request_id : Text

unfoldable pub valid_administrative_status : Status → Bool
valid_administrative_status active = true
valid_administrative_status muted = true
valid_administrative_status frozen = true
valid_administrative_status banned = true
valid_administrative_status _ = false

unfoldable pub valid_administrative_transition : Status → Status → Bool
unfolding status_eq
valid_administrative_transition old next =
    if status_eq old pending || status_eq old banned
    then status_eq next active || status_eq old next
    else true

unfoldable pub validate_status_actor : User → Option Error
unfolding is_nil status_eq role_eq
validate_status_actor actor =
    if not (is_nil actor.deleted_at)
      || status_eq actor.status banned
      || status_eq actor.status deleted
    then some session_invalid
    else if not (role_eq actor.role role_admin)
    then some admin_required
    else if status_eq actor.status frozen
    then some user_frozen
    else none

-- `mutedUntil != nil && validAuthenticationTime(*mutedUntil)`
unfoldable pub is_usable_time : Option Time → Bool
unfolding valid_authentication_time
is_usable_time none = false
is_usable_time (some t) = valid_authentication_time t

-- The test on MutedUntil before the transaction.
unfoldable pub valid_requested_time : ChangeUserStatusInput → Bool
unfolding is_usable_time status_eq is_nil normalize_optional_time
valid_requested_time input =
    if status_eq input.new_status muted
    then is_usable_time (normalize_optional_time input.muted_until)
    else is_nil input.muted_until

-- `mutedUntil.After(now)`; the time is there where this is asked.
unfoldable pub optional_after : Option Time → Time → Bool
optional_after none now = false
optional_after (some t) now = is_after t now

-- The loop over the locked users: the last row with the actor's id, and with the target's.
unfoldable pub place_users :
    ℤ → ℤ → Option User → Option User → List User → Result (Option User × Option User)
place_users actor_id target_id actor target [] = ok (actor, target)
place_users actor_id target_id actor target (user ∷ rest) =
    let as_actor = place_users actor_id target_id (some user) target rest in
    let as_target = place_users actor_id target_id actor (some user) rest in
    if eq_ℤ user.id actor_id
    then as_actor
    else if eq_ℤ user.id target_id
    then as_target
    else err (internal none)

-- One round of `validateAdministrativeSessionSet`, up to the actor's own session.
unfoldable pub administrative_session_error : Option ℤ → UserSession → Option Error
unfolding authentication_session
administrative_session_error previous session =
    if not (is_positive session.id)
      || elim previous [ none ↦ false | some id ↦ not (ltb_ℤ id session.id) ]
    then some (internal none)
    else if not (valid_authentication_session_structure (authentication_session session) session.id)
    then some (internal none)
    else none

module _ (actor_id actor_session_id target_id : ℤ) where
  -- The loop, with the actor's session once it is found; the sessions of the target come in order.
  unfoldable pub sort_out_sessions :
      Option ℤ → Option UserSession → List UserSession → Result (UserSession × List UserSession)
  unfolding administrative_session_error is_nil
  sort_out_sessions previous none [] = err session_invalid
  sort_out_sessions previous (some found) [] = ok (found, [])
  sort_out_sessions previous actor_session (session ∷ rest) =
      let as_actor = sort_out_sessions (some session.id) (some session) rest in
      let as_target = sort_out_sessions (some session.id) actor_session rest in
      elim (administrative_session_error previous session) [
        | some e ↦ err e
        | none ↦
            if eq_ℤ session.id actor_session_id
            then (if not (is_nil actor_session)
                then err (internal none)
                else if not (eq_ℤ session.user_id actor_id)
                then err session_invalid
                else as_actor)
            else if not (eq_ℤ session.user_id target_id) || not (is_nil session.revoked_at)
            then err (internal none)
            else elim as_target [
              | err e ↦ err e
              | ok (found, targets) ↦ ok (found, session ∷ targets)
            ]
      ]

  unfoldable pub validate_administrative_session_set :
      List UserSession → Result (UserSession × List UserSession)
  unfolding sort_out_sessions
  validate_administrative_session_set sessions = sort_out_sessions none none sessions

unfoldable pub valid_status_mutation_result :
    TextRules → User → User → Status → Option Time → Time → Bool
valid_status_mutation_result rules updated previous status muted_until now =
    valid_profile_user_structure rules updated previous.id false
    && text_eq updated.password_hash previous.password_hash
    && text_eq updated.email previous.email
    && text_eq updated.display_name previous.display_name
    && text_eq updated.bio previous.bio
    && role_eq updated.role previous.role
    && eq_ℤ updated.violation_count previous.violation_count
    && time_eq updated.created_at previous.created_at
    && status_eq updated.status status
    && optional_times_equal updated.muted_until muted_until
    && time_eq updated.updated_at now

unfoldable pub status_mutation : ℤ → Status → Option Time → Time → UserMutation
status_mutation user_id status muted_until now = record {
  user_id = user_id;
  display_name = unset;
  bio = unset;
  status = set_field status;
  muted_until = set_field muted_until;
  violation_count = unset;
  updated_at = set_field now;
  deleted_at = unset;
}

-- The "user.status_changed" entry.
unfoldable pub status_audit : ChangeUserStatusInput → Text → User → User → Time → AuditEntry
status_audit input reason previous target now = record {
  actor_type = actor_admin;
  actor_id = some input.actor_id;
  action = status_changed;
  target_id = target.id;
  detail = record {
    old_status = previous.status;
    new_status = target.status;
    reason = some reason;
    old_muted_until = previous.muted_until;
    new_muted_until = target.muted_until;
    request_id = input.request_id;
  };
  created_at = now;
}

unfoldable pub audit_before : AuditEntry → AuditEntry → Bool
audit_before a b = ltb_ℤ a.target_id b.target_id

-- The entries that are not nil.
unfoldable pub present : List (Option AuditEntry) → List AuditEntry
present [] = []
present (none ∷ rest) = present rest
present (some audit ∷ rest) = audit ∷ present rest

-- The error of the transaction: the sentinels that the switch names pass, any other is internal.
unfoldable pub status_error : Error → Error
unfolding new_internal_error
status_error admin_required = admin_required
status_error admin_target_forbidden = admin_target_forbidden
status_error invalid_status_transition = invalid_status_transition
status_error user_frozen = user_frozen
status_error session_invalid = session_invalid
status_error user_not_found = user_not_found
status_error (validation field) = validation field
status_error e = new_internal_error e
