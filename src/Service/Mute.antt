-- ===== src/Service/Mute.antt =====
-- The lifting of a mute that has run out (auth.go and profile.go): inside the transaction of another
-- operation, or in a transaction of its own after a read.
pub mod Recovery
pub mod AfterRead
use content_platform.Prelude.{
  ℤ, Text, Bool, true, false, not, ◌&&◌, Option, none, some, List, [], ◌∷◌, eq_ℤ, text_eq,
  if◌then◌else◌,
}
use content_platform.GoTime.{Time, is_after, time_eq}
use content_platform.Domain.{User, status_eq, active, muted, is_nil}
use content_platform.Domain.Validation.{TextRules}
use content_platform.Errors.{Error, internal, not_found, new_internal_error}
use content_platform.Ports.{AuditEntry, actor_system, mute_expired}
use content_platform.Database.{Environment}
use content_platform.Database.Monad.{Action, pure, throw, map_error, ◌>>=◌, ◌>>◌, throw_if}
use content_platform.Repository.{within_tx}
use content_platform.Repository.Users.{lock_users, recover_expired_mute}
use content_platform.Repository.Audit.{insert_audit}
use content_platform.Service.Rows.{lock_user}
use content_platform.Service.Checks.{
  valid_profile_user_structure, should_recover_expired_mute, secret_free_user,
}

unfoldable pub valid_recovered_auth_user : User → ℤ → Text → Time → Bool
unfolding is_nil
valid_recovered_auth_user user user_id password_hash now =
    eq_ℤ user.id user_id
    && text_eq user.password_hash password_hash
    && status_eq user.status active
    && is_nil user.muted_until
    && is_nil user.deleted_at
    && time_eq user.updated_at now

-- The "user.mute_expired" entry.
unfoldable pub mute_audit : ℤ → Time → Time → Text → AuditEntry
mute_audit user_id old_muted_until now request_id = record {
  actor_type = actor_system;
  actor_id = none;
  action = mute_expired;
  target_id = user_id;
  detail = record {
    old_status = muted;
    new_status = active;
    reason = none;
    old_muted_until = some old_muted_until;
    new_muted_until = none;
    request_id = request_id;
  };
  created_at = now;
}

unfoldable pub recovery_error : Error → Error
unfolding new_internal_error
recovery_error not_found = not_found
recovery_error e = new_internal_error e

module _ (env : Environment) where
  -- What follows the UPDATE: it must have changed the row, and into a user that was only unmuted.
  unfoldable pub accept_recovered :
      User → Time → Time → Text → Option User → Action (User × Option AuditEntry)
  unfolding valid_recovered_auth_user mute_audit
  accept_recovered user until now request_id none = throw (internal none)
  accept_recovered user until now request_id (some recovered) =
      if valid_recovered_auth_user recovered user.id user.password_hash now
      then pure (recovered, some (mute_audit recovered.id until now request_id))
      else throw (internal none)

  unfoldable pub recover_muted :
      User → Option Time → Time → Text → Action (User × Option AuditEntry)
  unfolding accept_recovered new_internal_error
  recover_muted user none now request_id = throw (internal none)
  recover_muted user (some until) now request_id =
      if is_after until now
      then pure (user, none)
      else map_error new_internal_error (recover_expired_mute env user.id now)
        >>= accept_recovered user until now request_id

  -- `recoverExpiredMuteForAuth`
  unfoldable pub recover_expired_mute_for_auth :
      User → Time → Text → Action (User × Option AuditEntry)
  unfolding recover_muted
  recover_expired_mute_for_auth user now request_id =
      if not (status_eq user.status muted)
      then pure (user, none)
      else recover_muted user user.muted_until now request_id

  -- `if pendingAudit != nil { tx.InsertAudit }`
  unfoldable pub insert_pending : Option AuditEntry → Action (Unit {0})
  unfolding new_internal_error
  insert_pending none = pure tt
  insert_pending (some audit) = map_error new_internal_error (insert_audit env audit)

  -- The callback of `recoverExpiredMuteAfterRead`, once the row is locked.
  unfoldable pub recover_user : TextRules → User → Time → Text → User → Action User
  unfolding insert_pending secret_free_user
  recover_user rules observed now request_id current = do
    throw_if (not (valid_profile_user_structure rules current observed.id false)) (internal none)
    (recovered, pending) ← recover_expired_mute_for_auth current now request_id
    throw_if (not (valid_profile_user_structure rules recovered observed.id false)) (internal none)
    insert_pending pending
    pure (secret_free_user recovered)

  -- The callback of `recoverExpiredMuteAfterRead`.
  unfoldable pub recover_locked : TextRules → User → Time → Text → Action User
  recover_locked rules observed now request_id =
      lock_user env new_internal_error observed.id not_found (internal none)
      >>= recover_user rules observed now request_id

  -- `recoverExpiredMuteAfterRead`
  unfoldable pub recover_expired_mute_after_read : TextRules → User → Time → Text → Action User
  unfolding recover_locked recovery_error secret_free_user
  recover_expired_mute_after_read rules observed now request_id =
      if not (should_recover_expired_mute observed now)
      then pure (secret_free_user observed)
      else (do
        latest ←
            map_error recovery_error (within_tx env (recover_locked rules observed now request_id))
        throw_if (not (valid_profile_user_structure rules latest observed.id true)) (internal none)
        pure latest)
