-- ===== src/Service/Refresh/Sound.antt =====
-- What a successful Refresh has checked, and the database that it leaves.
use content_platform.Prelude.{
  inl, inr, ℕ, ◌≤◌, ◌<◌, ◌/◌, ◌+◌, ◌*◌, ℤ, Text, ◌≡◌, true, none, eq_ℤ_sound, arith, ◌++◌,
  update_where, Mem,
}
use content_platform.GoTime.{Time, second, unix_difference, truncate_second, is_before, is_after}
use content_platform.Domain.{User, UserSession, can_login, normalize_time}
use content_platform.Errors.{ok}
use content_platform.Ports.{Digest}
use content_platform.Database.{Store, Environment, has_session_id}
use content_platform.Repository.Sessions.{set_token, rotate_session_token, lock_session}
use content_platform.Service.{Service, now}
use content_platform.Service.Checks.{valid_login_expiry}
use content_platform.Service.Refresh.{
  check_refreshable, issue_refreshed, RefreshInput, RefreshResult, access_expiry, refresh_user,
}
use content_platform.Database.Monad.Laws.{Result-cases}
use content_platform.Repository.Locking.{lock_session-ok, lock_session-state}
use content_platform.Service.Mute.Recovery.{
  recovered_users, recovered_audits, recovery-state, recovery-Continues, insert_pending-state,
}

valid_login_expiry-lt : (t e : Time) → valid_login_expiry t e ≡ true → t < e
unfolding valid_login_expiry is_after
valid_login_expiry-lt t e h = ground arith

-- The earlier of two instants is not after the session's end, and not after the token's own term.
pub access_expiry-bounds :
    (ttl : ℕ) (t end : Time) → (access_expiry ttl t end ≤ end) × (access_expiry ttl t end ≤ t + ttl)
unfolding access_expiry normalize_time truncate_second is_before
access_expiry-bounds ttl t end = ground arith

-- The access token lives for a second or longer, and not beyond the session.
pub access_lifetime :
    (ttl : ℕ) (now expires_at : Time)
    → let t = normalize_time now in
      let expiry = access_expiry ttl t (normalize_time expires_at) in
      valid_login_expiry t expiry ≡ true
      → (0 < unix_difference expiry t)
        × (t / second + unix_difference expiry t ≤ normalize_time expires_at / second)
        × (unix_difference expiry t * second ≤ ttl)
unfolding access_expiry unix_difference normalize_time truncate_second is_before valid_login_expiry
    is_after
access_lifetime ttl now expires_at h = ground arith

module _ (env : Environment) (service : Service) where
  check_refreshable-state :
      (session_id owner_id : ℤ) (candidate : Digest) (user : User) (session : UserSession)
      (s : Store)
      → (check_refreshable env service session_id owner_id candidate user session s).1 ≡ s
  unfolding check_refreshable
  check_refreshable-state session_id owner_id candidate user session s = ground arith

  pub check_refreshable-ok :
      (session_id owner_id : ℤ) (candidate : Digest) (user : User) (session : UserSession)
      {s s' : Store}
      → check_refreshable env service session_id owner_id candidate user session s ≡ (ok tt, s')
      → (s' ≡ s)
        × (session.id ≡ session_id)
        × (session.user_id ≡ user.id)
        × (session.revoked_at ≡ none)
        × (service.refresh_token_generator.match_digest session.token_hash candidate ≡ true)
        × (user.deleted_at ≡ none)
        × (can_login user.status ≡ true)
  unfolding check_refreshable
  check_refreshable-ok session_id owner_id candidate user session h = ground (
    arith,
    eq_ℤ_sound session.id session_id,
    eq_ℤ_sound session.user_id owner_id,
    eq_ℤ_sound session.user_id user.id,
  )

  pub issue_refreshed-ok :
      (input : RefreshInput) (user : User) (session : UserSession) (t : Time) (s : Store)
      {result : RefreshResult} {s' : Store} {secret : Text} {digest : Digest}
      → service.refresh_token_generator.generate ≡ ok (secret, digest)
      → issue_refreshed env service input user session t s ≡ (ok result, s')
      → (service.refresh_token_generator.format session.id secret ≡ ok result.refresh_token)
        × (result.refresh_expires_at ≡ normalize_time session.expires_at)
        × (t < normalize_time session.expires_at)
        × (valid_login_expiry t
              (access_expiry service.access_token_ttl t (normalize_time session.expires_at))
            ≡ true)
        × (result.expires_in
            ≡ unix_difference
                (access_expiry service.access_token_ttl t (normalize_time session.expires_at))
                t)
        × (s' ≡ record {
          users = recovered_users user t s.users;
          sessions = update_where (has_session_id session.id) (set_token digest) s.sessions;
          audits = s.audits ++ recovered_audits user t input.request_id;
        })
  unfolding issue_refreshed rotate_session_token
  issue_refreshed-ok input user session t s e h =
      grind (arith, valid_login_expiry-lt, recovery-state, recovery-Continues, insert_pending-state)

  -- A token identifier was drawn, and the manager signed the user and the session with it, up to the
  -- earlier of the token's own term and the session's end.
  pub issue_refreshed-signed :
      (input : RefreshInput) (user : User) (session : UserSession) (t : Time) (s : Store)
      {result : RefreshResult} {s' : Store} {secret : Text} {digest : Digest}
      → service.refresh_token_generator.generate ≡ ok (secret, digest)
      → issue_refreshed env service input user session t s ≡ (ok result, s')
      → (jwt_id : Text) × (service.access_token_manager.generate_jwt_id ≡ ok jwt_id)
        × (service.access_token_manager.sign user.id session.id t
              (access_expiry service.access_token_ttl t (normalize_time session.expires_at))
              jwt_id
            ≡ ok result.access_token)
  unfolding issue_refreshed rotate_session_token
  issue_refreshed-signed input user session t s e h =
      elim (Result-cases service.access_token_manager.generate_jwt_id) [
        | inl (jwt_id, drawn) ↦
            (jwt_id, drawn, grind (arith, recovery-state, recovery-Continues, insert_pending-state))
        | inr (x, failed) ↦
            absurd (grind (arith, recovery-state, recovery-Continues, insert_pending-state))
      ]

  pub refresh_user-ok :
      (input : RefreshInput) (session_id owner_id : ℤ) (candidate : Digest) (user : User)
      (s : Store) {result : RefreshResult} {s' : Store}
      → refresh_user env service input session_id owner_id candidate user s ≡ (ok result, s')
      → (session : UserSession) × Mem session s.sessions
        × (check_refreshable env service session_id owner_id candidate user session s ≡ (ok tt, s))
        × (issue_refreshed env service input user session (normalize_time env.clock_now) s
            ≡ (ok result, s'))
  unfolding refresh_user now
  refresh_user-ok input session_id owner_id candidate user s h =
      elim (Result-cases (lock_session env session_id s).0) [
        | inl (session, e) ↦ (
          session,
          (lock_session-ok env session_id s {s' = (lock_session env session_id s).1}
              (ground arith)).1,
          grind (arith, lock_session-state, check_refreshable-state),
          grind (arith, lock_session-state, check_refreshable-state),
        )
        | inr (x, e) ↦ absurd (ground arith)
      ]
