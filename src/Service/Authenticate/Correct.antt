-- ===== src/Service/Authenticate/Correct.antt =====
-- Authenticate as a whole: what a successful call has found.
use content_platform.Prelude.{
  ◌⊎◌, Bool-cases, Text, [], ◌≡◌, ◌<◌, none, some, arith, inl, inr, find_where, ℤ,
}
use content_platform.GoTime.{Time}
use content_platform.Domain.{User, UserSession, normalize_time}
use content_platform.Domain.Validation.{TextRules}
use content_platform.Errors.{ok}
use content_platform.Database.{Store, Environment, before_transaction, has_session_id}
use content_platform.Database.Monad.Laws.{Result-cases}
use content_platform.Service.Mute.{recover_expired_mute_after_read}
use content_platform.Service.Mute.AfterRead.{IsLifted, recover_expired_mute_after_read-ok}
use content_platform.Service.Steps.{steps}
use content_platform.Service.Checks.{should_recover_expired_mute, strict_status_error}
use content_platform.Service.Authenticate.{AuthenticateInput, current_user}

-- A session and a user that the call found in `before`, and the user that it returns.
pub record IsAuthenticated (env : Environment) (rules : TextRules) (input : AuthenticateInput)
    (request_id : Text) (before : Store) (result : User) (after : Store) : Type 0 where
  pub session : UserSession
  pub session_found : find_where (has_session_id input.session_id) before.sessions ≡ some session
  pub owned : session.user_id ≡ input.user_id
  pub unrevoked : session.revoked_at ≡ none
  pub unexpired : normalize_time env.clock_now < normalize_time session.expires_at
  pub user : User
  pub returned : result ≡ record user { password_hash = [] }
  pub identified : result.id ≡ input.user_id
  pub undeleted : result.deleted_at ≡ none
  pub secret_free : result.password_hash ≡ []
  pub acceptable : strict_status_error result.status result.muted_until ≡ none
  pub effect :
      (after ≡ before)
      ⊎ IsLifted input.user_id
          (normalize_time env.clock_now)
          request_id
          (env.others before_transaction before)
          user
          after

module _ (env : Environment) (rules : TextRules) where
  pub current_user-effect :
      (id : ℤ) (user : User) (t : Time) (request_id : Text) (s : Store) {u : User} {s' : Store}
      → current_user env rules id user t request_id s ≡ (ok u, s')
      → (s' ≡ s) ⊎ IsLifted user.id t request_id (env.others before_transaction s) u s'
  unfolding current_user
  current_user-effect id user t request_id s {u} {s'} h =
      elim (Bool-cases (should_recover_expired_mute user t)) [
        | inr e ↦ inl (ground (arith, e, h))
        | inl e ↦
            elim (Result-cases (recover_expired_mute_after_read env rules user t request_id s).0) [
              | inl (v, f) ↦ inr (
                  recover_expired_mute_after_read-ok env rules user t request_id s {u = u} {s' = s'}
                    (grind (steps, e, f, h)) e)
              | inr (x, f) ↦ absurd (ground (arith, e, f, h))
            ]
      ]
