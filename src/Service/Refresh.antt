-- ===== src/Service/Refresh.antt =====
-- Refresh (auth.go): a refresh token is exchanged for a new one and an access token.
pub mod Sound
pub mod Correct
use content_platform.Prelude.{
  ℕ, ◌+◌, ℤ, Text, not, ◌&&◌, ◌||◌, none, ◌∷◌, [], length, ◌==◌, is_positive, eq_ℤ, if◌then◌else◌,
}
use content_platform.GoTime.{Time, is_before, unix_difference}
use content_platform.Domain.{User, UserSession, can_login, status_eq, muted, is_nil, normalize_time}
use content_platform.Errors.{
  Error, internal, invalid_refresh_token, new_internal_error, internal_context_marker, is_internal,
  is_not_found,
}
use content_platform.Ports.{Digest}
use content_platform.Database.{Environment, at_entry, after_read}
use content_platform.Database.Monad.{Action, pure, lift, attempt, map_error, ◌>>=◌, ◌>>◌, throw_if}
use content_platform.Repository.{within_tx}
use content_platform.Repository.Users.{lock_users}
use content_platform.Repository.Sessions.{find_session_owner, lock_session, rotate_session_token}
use content_platform.Service.{Service, check_live_context, check_context, now}
use content_platform.Service.Checks.{valid_login_expiry}
use content_platform.Service.Mute.{recover_expired_mute_for_auth, insert_pending}
use content_platform.Service.Rows.{lock_user}

pub record RefreshInput : Type 0 where
  pub refresh_token : Text
  pub request_id : Text

-- TokenType is "Bearer" in every result.
pub record RefreshResult : Type 0 where
  pub access_token : Text
  pub expires_in : ℕ
  pub refresh_token : Text
  pub refresh_expires_at : Time

unfoldable pub refresh_lookup_error : Error → Error
unfolding new_internal_error internal_context_marker is_internal is_not_found is_nil
refresh_lookup_error e =
    if is_nil (internal_context_marker e) && not (is_internal e) && is_not_found e
    then invalid_refresh_token
    else new_internal_error e

unfoldable pub refresh_error : Error → Error
unfolding new_internal_error
refresh_error invalid_refresh_token = invalid_refresh_token
refresh_error e = new_internal_error e

-- The earlier of the access token's own term and the session's end.
unfoldable pub access_expiry : ℕ → Time → Time → Time
access_expiry ttl now session_expires_at =
    let own = normalize_time (now + ttl) in
    if is_before session_expires_at own then session_expires_at else own

module _ (env : Environment) (service : Service) where
  -- The tests on the locked rows, up to the clock.
  unfoldable pub check_refreshable : ℤ → ℤ → Digest → User → UserSession → Action (Unit {0})
  unfolding is_nil
  check_refreshable session_id owner_id candidate user session = do
    throw_if
        (not (eq_ℤ session.id session_id)
          || not (eq_ℤ session.user_id owner_id)
          || not (eq_ℤ session.user_id user.id))
        invalid_refresh_token
    throw_if (not (is_nil session.revoked_at) || not (length session.token_hash == 32))
        invalid_refresh_token
    throw_if (not (service.refresh_token_generator.match_digest session.token_hash candidate))
        invalid_refresh_token
    throw_if (not (is_nil user.deleted_at) || not (can_login user.status)) invalid_refresh_token
    throw_if (status_eq user.status muted && is_nil user.muted_until) (internal none)

  -- New tokens for the session, whose stored digest is replaced.
  unfoldable pub issue_refreshed : RefreshInput → User → UserSession → Time → Action RefreshResult
  unfolding access_expiry
  issue_refreshed input user session t = do
    let session_expires_at = normalize_time session.expires_at
    throw_if (not (valid_login_expiry t session_expires_at)) invalid_refresh_token
    let access_expires_at = access_expiry service.access_token_ttl t session_expires_at
    throw_if (not (valid_login_expiry t access_expires_at)) (internal none)
    (recovered, pending) ← recover_expired_mute_for_auth env user t input.request_id
    (secret, digest) ← map_error new_internal_error (lift service.refresh_token_generator.generate)
    jwt_id ← map_error new_internal_error (lift service.access_token_manager.generate_jwt_id)
    access_token ← map_error new_internal_error (
        lift (service.access_token_manager.sign recovered.id session.id t access_expires_at jwt_id))
    refresh_token ←
        map_error new_internal_error
          (lift (service.refresh_token_generator.format session.id secret))
    map_error new_internal_error (rotate_session_token env session.id digest)
    insert_pending env pending
    pure (record {
      access_token = access_token;
      expires_in = unix_difference access_expires_at t;
      refresh_token = refresh_token;
      refresh_expires_at = session_expires_at;
    })

  -- The callback of the transaction, once the owner's row is locked.
  unfoldable pub refresh_user : RefreshInput → ℤ → ℤ → Digest → User → Action RefreshResult
  refresh_user input session_id owner_id candidate user = do
    session ← map_error refresh_lookup_error (lock_session env session_id)
    check_refreshable session_id owner_id candidate user session
    t ← now env
    issue_refreshed input user session t

  -- The callback of the transaction.
  unfoldable pub refresh_locked : RefreshInput → ℤ → ℤ → Digest → Action RefreshResult
  refresh_locked input session_id owner_id candidate =
      lock_user env refresh_lookup_error owner_id invalid_refresh_token invalid_refresh_token
      >>= refresh_user input session_id owner_id candidate

  -- `Refresh`
  unfoldable pub refresh : RefreshInput → Action RefreshResult
  unfolding refresh_error
  refresh input = do
    (session_id, candidate) ←
        map_error (λ _. invalid_refresh_token)
          (lift (service.refresh_token_generator.parse input.refresh_token))
    throw_if (not (is_positive session_id)) invalid_refresh_token
    check_live_context env at_entry
    found ← attempt (find_session_owner env session_id)
    check_context env after_read
    owner_id ← map_error refresh_lookup_error (lift found)
    throw_if (not (is_positive owner_id)) (internal none)
    map_error refresh_error (within_tx env (refresh_locked input session_id owner_id candidate))
