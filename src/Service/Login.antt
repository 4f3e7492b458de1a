-- ===== src/Service/Login.antt =====
-- Login (auth.go): a password is compared, whatever the account, and a session is created.
pub mod Sound
pub mod Correct
use content_platform.Prelude.{
  ℕ, ◌+◌, Text, Bool, not, ◌&&◌, ◌||◌, Option, none, some, ◌∷◌, [], length, ◌==◌, is_positive, eq_ℤ,
  text_eq, if◌then◌else◌,
}
use content_platform.GoTime.{Time, is_after, is_before, time_eq, nanosecond, unix_difference}
use content_platform.Domain.{User, UserView, view, UserSession, can_login, is_nil, normalize_time}
use content_platform.Domain.Validation.{
  TextRules, normalize_email, validate_email, validate_registration_password,
}
use content_platform.Errors.{
  Error, Result, ok, err, internal, context_error, invalid_credentials, new_internal_error,
  internal_context_marker, is_internal, is_not_found,
}
use content_platform.Ports.{LoginCredential, CreateSessionRecord}
use content_platform.Database.{Environment, at_entry, after_read}
use content_platform.Database.Monad.{Action, pure, lift, attempt, map_error, ◌>>=◌, ◌>>◌, throw_if}
use content_platform.Repository.{within_tx}
use content_platform.Repository.Users.{find_login_credential, lock_users}
use content_platform.Repository.Sessions.{create_session}
use content_platform.Service.{Service, check_context, now, fail_with}
use content_platform.Service.Checks.{valid_login_expiry}
use content_platform.Service.Mute.{recover_expired_mute_for_auth, insert_pending}
use content_platform.Service.Rows.{lock_user}

pub record LoginInput : Type 0 where
  pub email : Text
  pub password : Text
  pub request_id : Text

pub record LoginResult : Type 0 where
  pub access_token : Text
  pub expires_in : ℕ
  pub refresh_token : Text
  pub refresh_expires_at : Time
  pub user : UserView

-- `loginCredentialOutcome`, with the credential that was found or the error of the read.
pub data Outcome : Type 0 where
  invalid_fields missing_credential : Outcome
  credential_read_failure : Error → Outcome
  found_credential : LoginCredential → Outcome

unfoldable pub credential_outcome : Result LoginCredential → Outcome
unfolding internal_context_marker is_internal is_not_found is_nil
credential_outcome (ok credential) = found_credential credential
credential_outcome (err e) =
    if not (is_nil (internal_context_marker e)) || is_internal e
    then credential_read_failure e
    else if is_not_found e
    then missing_credential
    else credential_read_failure e

unfoldable pub login_error : Error → Error
unfolding new_internal_error
login_error invalid_credentials = invalid_credentials
login_error e = new_internal_error e

unfoldable pub valid_created_login_session : UserSession → CreateSessionRecord → Time → Bool
unfolding is_nil valid_login_expiry
valid_created_login_session session record' now =
    is_positive session.id
    && eq_ℤ session.user_id record'.user_id
    && is_nil session.revoked_at
    && length session.token_hash == 32
    && text_eq session.token_hash record'.token_hash
    && time_eq session.created_at record'.created_at
    && nanosecond session.expires_at == 0
    && not (is_after session.expires_at record'.expires_at)
    && valid_login_expiry now (normalize_time session.expires_at)

unfoldable pub earlier : Time → Time → Time
earlier own session_end = if is_before session_end own then session_end else own

-- The decision after the comparison, up to the transaction.
unfoldable pub accept_outcome : Outcome → Bool → Action LoginCredential
unfolding new_internal_error
accept_outcome invalid_fields matched = do
  throw_if (not matched) (internal none)
  lift (err invalid_credentials)
accept_outcome missing_credential matched = do
  throw_if (not matched) (internal none)
  lift (err invalid_credentials)
accept_outcome (credential_read_failure e) matched = do
  throw_if (not matched) (internal none)
  lift (err (new_internal_error e))
accept_outcome (found_credential credential) matched = do
  throw_if (not matched || not (is_nil credential.deleted_at) || not (can_login credential.status))
      invalid_credentials
  throw_if (not (is_positive credential.user_id)) (internal none)
  pure credential

module _ (env : Environment) (rules : TextRules) (service : Service) where
  -- The error of a context that is nil or done on entry; it is returned after the comparison.
  unfoldable pub initial_context_err : Option Error
  unfolding new_internal_error
  initial_context_err =
      if env.context_is_nil then some (internal none) else elim (env.ctx_err at_entry) [
        | none ↦ none
        | some c ↦ some (new_internal_error (context_error c))
      ]

  unfoldable pub read_credential : LoginInput → Action Outcome
  unfolding credential_outcome initial_context_err
  read_credential input =
      let email = normalize_email rules input.email in
      if is_nil (validate_email rules email)
        && is_nil (validate_registration_password input.password)
        && is_nil initial_context_err
      then (do found ← attempt (find_login_credential env email); pure (credential_outcome found))
      else pure invalid_fields

  -- A password is compared on every path: the dummy where there is no credential.
  unfoldable pub compare_password : LoginInput → Outcome → Result Bool
  compare_password input (found_credential credential) =
      service.password_hasher.compare_hash credential.password_hash input.password
  compare_password input _ =
      service.password_hasher.compare_hash service.password_hasher.dummy_hash
        service.password_hasher.dummy_candidate

  -- A session and its tokens, for a user whose row is locked.
  unfoldable pub open_session : LoginInput → User → Time → Action LoginResult
  unfolding earlier
  open_session input user t = do
    let refresh_expires_at = normalize_time (t + service.refresh_token_ttl)
    let access_expires_at = normalize_time (t + service.access_token_ttl)
    throw_if
        (not (valid_login_expiry t refresh_expires_at)
          || not (valid_login_expiry t access_expires_at))
        (internal none)
    (recovered, pending) ← recover_expired_mute_for_auth env user t input.request_id
    (secret, digest) ← map_error new_internal_error (lift service.refresh_token_generator.generate)
    let session_record : CreateSessionRecord = record {
      user_id = recovered.id;
      token_hash = digest;
      expires_at = refresh_expires_at;
      created_at = t;
    }
    session ← map_error new_internal_error (create_session env session_record)
    throw_if (not (valid_created_login_session session session_record t)) (internal none)
    let session_expires_at = normalize_time session.expires_at
    let actual_access_expiry = earlier access_expires_at session_expires_at
    let expires_in = unix_difference actual_access_expiry t
    throw_if (expires_in == 0) (internal none)
    jwt_id ← map_error new_internal_error (lift service.access_token_manager.generate_jwt_id)
    access_token ← map_error new_internal_error (
        lift
          (service.access_token_manager.sign recovered.id session.id t actual_access_expiry jwt_id))
    refresh_token ←
        map_error new_internal_error
          (lift (service.refresh_token_generator.format session.id secret))
    insert_pending env pending
    pure (record {
      access_token = access_token;
      expires_in = expires_in;
      refresh_token = refresh_token;
      refresh_expires_at = session_expires_at;
      user = view recovered;
    })

  -- The callback of the transaction, once the row is locked: the credential must still be the user's.
  unfoldable pub login_user : LoginInput → LoginCredential → User → Action LoginResult
  login_user input credential user = do
    throw_if
        (not (text_eq user.password_hash credential.password_hash)
          || not (is_nil user.deleted_at)
          || not (can_login user.status))
        invalid_credentials
    t ← now env
    open_session input user t

  -- The callback of the transaction.
  unfoldable pub login_locked : LoginInput → LoginCredential → Action LoginResult
  login_locked input credential =
      lock_user env new_internal_error credential.user_id invalid_credentials (internal none)
      >>= login_user input credential

  -- `Login`
  unfoldable pub login : LoginInput → Action LoginResult
  unfolding login_error
  login input = do
    outcome ← read_credential input
    matched ← map_error new_internal_error (lift (compare_password input outcome))
    fail_with initial_context_err
    check_context env after_read
    credential ← accept_outcome outcome matched
    map_error login_error (within_tx env (login_locked input credential))
