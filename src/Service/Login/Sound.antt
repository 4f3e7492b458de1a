-- ===== src/Service/Login/Sound.antt =====
-- What a successful Login has checked in its transaction, and the database that it leaves.
use content_platform.Prelude.{◌<◌, ◌+◌, ◌≡◌, Text, ◌++◌, ◌∷◌, [], arith, inl, inr}
use content_platform.GoTime.{Time, unix_difference}
use content_platform.Domain.{User, UserSession, can_login, normalize_time}
use content_platform.Domain.Validation.{TextRules}
use content_platform.Errors.{ok}
use content_platform.Ports.{Digest}
use content_platform.Database.{Store, Environment}
use content_platform.Database.Monad.Laws.{Result-cases}
use content_platform.Repository.Sessions.{create_session, new_session}
use content_platform.Service.{Service}
use content_platform.Service.Mute.Recovery.{
  recovered_users, recovered_audits, recovery-state, recovery-Continues, insert_pending-state,
}
use content_platform.Service.Login.{LoginInput, LoginResult, open_session, earlier}

-- The session that a login at `t` creates.
unfoldable pub created_session : Environment → Service → User → Digest → Time → UserSession
unfolding new_session
created_session env service user digest t = new_session env (record {
  user_id = user.id;
  token_hash = digest;
  expires_at = normalize_time (t + service.refresh_token_ttl);
  created_at = t;
})

module _ (env : Environment) (rules : TextRules) (service : Service) where
  pub open_session-ok :
      (input : LoginInput) (user : User) (t : Time) (s : Store) {secret : Text} {digest : Digest}
      {result : LoginResult} {s' : Store}
      → service.refresh_token_generator.generate ≡ ok (secret, digest)
      → open_session env rules service input user t s ≡ (ok result, s')
      → let session = created_session env service user digest t in
        (service.refresh_token_generator.format session.id secret ≡ ok result.refresh_token)
        × (result.refresh_expires_at ≡ normalize_time session.expires_at)
        × (result.user.id ≡ user.id)
        × (0 < result.expires_in)
        × (result.expires_in
            ≡ unix_difference
                (earlier (normalize_time (t + service.access_token_ttl)) result.refresh_expires_at)
                t)
        × (s' ≡ record {
          users = recovered_users user t s.users;
          sessions = s.sessions ++ session ∷ [];
          audits = s.audits ++ recovered_audits user t input.request_id;
        })
  unfolding open_session create_session created_session content_platform.Domain.view
  open_session-ok input user t s e h =
      grind (arith, recovery-state, recovery-Continues, insert_pending-state)

  -- The access token of a login: a token identifier was drawn, and the manager signed the user and the
  -- session with it, up to an instant that is `expires_in` seconds away.
  pub open_session-signed :
      (input : LoginInput) (user : User) (t : Time) (s : Store) {secret : Text} {digest : Digest}
      {result : LoginResult} {s' : Store}
      → service.refresh_token_generator.generate ≡ ok (secret, digest)
      → open_session env rules service input user t s ≡ (ok result, s')
      → (jwt_id : Text) × (service.access_token_manager.generate_jwt_id ≡ ok jwt_id)
        × (service.access_token_manager.sign user.id env.next_session_id t
              (earlier (normalize_time (t + service.access_token_ttl)) result.refresh_expires_at)
              jwt_id
            ≡ ok result.access_token)
  unfolding open_session create_session created_session content_platform.Domain.view
  open_session-signed input user t s e h =
      elim (Result-cases service.access_token_manager.generate_jwt_id) [
        | inl (jwt_id, drawn) ↦
            (jwt_id, drawn, grind (arith, recovery-state, recovery-Continues, insert_pending-state))
        | inr (x, failed) ↦
            absurd (grind (arith, recovery-state, recovery-Continues, insert_pending-state))
      ]
