-- ===== src/Service/Login/Correct.antt =====
-- Login as a whole: what a successful call has found in the database, and what it leaves there.
use content_platform.Prelude.{
  Bool, ◌<◌, ◌≤◌, ◌/◌, ◌+◌, ◌≡◌, none, true, Text, ◌++◌, ◌∷◌, [], arith, Mem, subst, text_eq_sound,
  inl, inr,
}
use content_platform.GoTime.{Time, second, unix_difference, is_before}
use content_platform.Domain.{User, can_login, normalize_time}
use content_platform.Domain.Validation.{TextRules}
use content_platform.Errors.{ok, new_internal_error, invalid_credentials, internal}
use content_platform.Ports.{Digest, LoginCredential}
use content_platform.Database.{Store, Environment, before_statement, before_transaction}
use content_platform.Database.Monad.Laws.{Result-cases, >>=-ok}
use content_platform.Repository.{within_tx}
use content_platform.Repository.Atomic.{within_tx-ok}
use content_platform.Service.{Service}
use content_platform.Service.Rows.{lock_user, lock_user-ok}
use content_platform.Service.Steps.{steps}
use content_platform.Service.Mute.Recovery.{recovered_users, recovered_audits}
use content_platform.Service.Untouched.{find_login_credential-state, accept_outcome-state}
use content_platform.Service.Login.{
  LoginInput, LoginResult, Outcome, found_credential, login, login_locked, login_user, open_session,
  earlier, read_credential, compare_password, accept_outcome,
}
use content_platform.Service.Login.Sound.{created_session, open_session-ok, open_session-signed}

earlier_lifetime :
    (access session_end t : Time)
    → let life = unix_difference (earlier access session_end) t in
      0 < life → t / second + life ≤ session_end / second
unfolding earlier unix_difference is_before
earlier_lifetime access session_end t h = ground arith

-- A login of a user found in `before`, that leaves `after`.
pub record IsLoggedIn (env : Environment) (service : Service) (input : LoginInput) (secret : Text)
    (digest : Digest) (before : Store) (result : LoginResult) (after : Store) : Type 0 where
  pub user : User
  pub user_stored : Mem user before.users
  pub undeleted : user.deleted_at ≡ none
  pub allowed : can_login user.status ≡ true
  pub compared : service.password_hasher.compare_hash user.password_hash input.password ≡ ok true
  pub shown : result.user.id ≡ user.id
  pub formatted :
      service.refresh_token_generator.format env.next_session_id secret ≡ ok result.refresh_token
  pub signed :
      (expiry : Time) × (jwt_id : Text) × (service.access_token_manager.generate_jwt_id ≡ ok jwt_id)
      × (service.access_token_manager.sign user.id env.next_session_id
            (normalize_time env.clock_now)
            expiry
            jwt_id
          ≡ ok result.access_token)
      × (result.expires_in ≡ unix_difference expiry (normalize_time env.clock_now))
  pub session_end :
      result.refresh_expires_at
      ≡ normalize_time
          (created_session env service user digest (normalize_time env.clock_now)).expires_at
  pub positive_life : 0 < result.expires_in
  pub within_session :
      normalize_time env.clock_now / second + result.expires_in ≤ result.refresh_expires_at / second
  pub stored : after ≡ record {
    users = recovered_users user (normalize_time env.clock_now) before.users;
    sessions =
        before.sessions
        ++ created_session env service user digest (normalize_time env.clock_now) ∷ [];
    audits = before.audits ++ recovered_audits user (normalize_time env.clock_now) input.request_id;
  }

module _ (env : Environment) (rules : TextRules) (service : Service) (input : LoginInput)
    (secret : Text) (digest : Digest)
    (drawn : service.refresh_token_generator.generate ≡ ok (secret, digest)) where
  login_user-ok :
      (credential : LoginCredential) (user : User) (s : Store) {result : LoginResult} {s' : Store}
      → login_user env rules service input credential user s ≡ (ok result, s')
      → (user.password_hash ≡ credential.password_hash)
        × (user.deleted_at ≡ none)
        × (can_login user.status ≡ true)
        × (open_session env rules service input user (normalize_time env.clock_now) s
            ≡ (ok result, s'))
  unfolding login_user content_platform.Domain.is_nil content_platform.Service.now
  login_user-ok credential user s h =
      ground (arith, text_eq_sound user.password_hash credential.password_hash)

  login_locked-ok :
      (credential : LoginCredential) (s : Store) {result : LoginResult} {s' : Store}
      → service.password_hasher.compare_hash credential.password_hash input.password ≡ ok true
      → login_locked env rules service input credential s ≡ (ok result, s')
      → IsLoggedIn env service input secret digest s result s'
  unfolding login_locked created_session content_platform.Repository.Sessions.new_session
  login_locked-ok credential s {result} {s'} matched h =
      let id = credential.user_id in
      let lock = lock_user env new_internal_error id invalid_credentials (internal none) in
      let k = login_user env rules service input credential in
      let (user, t, e, f) = >>=-ok lock k s h in
      let (same, stored, _) =
        lock_user-ok env new_internal_error id invalid_credentials (internal none) s e in
      let g = subst (λ u. k user u ≡ (ok result, s')) same f in
      let (hash, undeleted, allowed, opened) = login_user-ok credential user s g in
      let (formatted, end, shown, life, lifetime, final) =
        open_session-ok env rules service input user (normalize_time env.clock_now) s drawn
          opened in
      let (jwt_id, jwt_id_drawn, token) =
        open_session-signed env rules service input user (normalize_time env.clock_now) s drawn
          opened in
      record {
        user = user;
        user_stored = stored;
        undeleted = undeleted;
        allowed = allowed;
        compared = rw hash matched;
        shown = shown;
        formatted = formatted;
        signed = (
          earlier (normalize_time (normalize_time env.clock_now + service.access_token_ttl))
              result.refresh_expires_at,
          jwt_id,
          jwt_id_drawn,
          token,
          lifetime,
        );
        session_end = end;
        positive_life = life;
        within_session = rw lifetime (
            earlier_lifetime
              (normalize_time (normalize_time env.clock_now + service.access_token_ttl))
              result.refresh_expires_at (normalize_time env.clock_now) (rw (← lifetime) life));
        stored = final;
      }

  accept_outcome-ok :
      (outcome : Outcome) (matched : Bool) (s : Store) {credential : LoginCredential} {s' : Store}
      → accept_outcome outcome matched s ≡ (ok credential, s')
      → (s' ≡ s) × (matched ≡ true) × (outcome ≡ found_credential credential)
  unfolding accept_outcome
  accept_outcome-ok outcome matched s h = ground arith

  compare_password-found :
      (outcome : Outcome) (matched : Bool) {credential : LoginCredential}
      → outcome ≡ found_credential credential
      → compare_password env rules service input outcome ≡ ok matched
      → service.password_hasher.compare_hash credential.password_hash input.password ≡ ok matched
  unfolding compare_password
  compare_password-found outcome matched e h = ground arith

  read_credential-found :
      (s : Store) {credential : LoginCredential}
      → (read_credential env rules service input s).0 ≡ ok (found_credential credential)
      → (read_credential env rules service input s).1 ≡ env.others before_statement s
  unfolding read_credential
  read_credential-found s h = grind (arith, find_login_credential-state)

  -- What is left of the call once the read has returned.
  login_transaction :
      (s : Store) {result : LoginResult} {s' : Store}
      → login env rules service input s ≡ (ok result, s')
      → (credential : LoginCredential) × (service.password_hasher.compare_hash
            credential.password_hash input.password
          ≡ ok true)
        × (within_tx env
              (login_locked env rules service input credential)
              (env.others before_statement s)
            ≡ (ok result, s'))
  unfolding login
  login_transaction s h = elim (Result-cases (read_credential env rules service input s).0) [
    | inl (outcome, read) ↦ elim (Result-cases (compare_password env rules service input outcome)) [
      | inl (matched, compared) ↦
          elim (Result-cases
            (accept_outcome outcome matched (read_credential env rules service input s).1).0) [
              | inl (credential, accepted) ↦
                  let (_, agreed, found) =
                    accept_outcome-ok outcome matched (read_credential env rules service input s).1
                      {credential = credential}
                      {s' = (accept_outcome outcome matched
                        (read_credential env rules service input s).1).1}
                      (ground arith) in
                  (
                    credential,
                    ground (arith, compare_password-found outcome matched found compared),
                    grind (steps, read_credential-found, accept_outcome-state),
                  )
              | inr (x, e) ↦ absurd (grind steps)
            ]
      | inr (x, e) ↦ absurd (ground arith)
    ]
    | inr (x, e) ↦ absurd (ground arith)
  ]

  -- A successful login found, when it locked the row, a user that is not deleted and may log in,
  -- whose stored hash the password matches. It has added one session, for that user and with the
  -- digest of the refresh token that it returns, and has lifted the user's mute if that had run
  -- out. The access token is signed for that user and that session; it lives for a second or
  -- longer and does not outlive the session.
  pub login_sound :
      (s : Store) {result : LoginResult} {s' : Store}
      → login env rules service input s ≡ (ok result, s')
      → IsLoggedIn env service input secret digest
          (env.others before_transaction (env.others before_statement s))
          result
          s'
  login_sound s h =
      let (credential, matched, e) = login_transaction s h in
      let callback = login_locked env rules service input credential in
      login_locked-ok credential _ matched
        (within_tx-ok env callback (env.others before_statement s) e).1
