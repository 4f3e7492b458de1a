-- ===== src/Repository/Sessions.antt =====
-- infra/postgres/identity/session.go: the statements on `user_sessions`.
use content_platform.Prelude.{
  ℤ, Bool, not, ◌&&◌, ◌||◌, none, some, List, [], ◌∷◌, ◌++◌, eq_ℤ, ltb_ℤ, sort_by, insert_by,
  select_where, find_where, update_where, any_where, if◌then◌else◌,
}
use content_platform.GoTime.{Time}
use content_platform.Domain.{User, UserSession, is_nil}
use content_platform.Errors.{Result, ok, err, not_found}
use content_platform.Ports.{
  Digest, AuthenticationState, CreateSessionRecord, SessionLockRequest, RevokeSessionRequest,
}
use content_platform.Database.{
  Environment, select_state, select_owner, update_revoked, lock_session_rows, insert_session,
  update_token, revoke_row, session_row_ok, has_id, has_session_id, references_user,
}
use content_platform.Database.Monad.{Action, pure, throw, ◌>>=◌, ◌>>◌}
use content_platform.Repository.{
  repository_internal_error, run, autocommit, autocommit_write, sorted_unique_ids, contains_id,
}
use content_platform.Repository.Users.{safe_columns}

unfoldable pub session_before : UserSession → UserSession → Bool
session_before s t = ltb_ℤ s.id t.id

-- `WHERE id = $1 AND user_id = $2 AND revoked_at IS NULL`
unfoldable pub is_open_session_of : RevokeSessionRequest → UserSession → Bool
is_open_session_of r s = eq_ℤ s.id r.session_id && eq_ℤ s.user_id r.user_id && is_nil s.revoked_at

unfoldable pub set_revoked : Time → UserSession → UserSession
set_revoked at s = record s { revoked_at = some at }

unfoldable pub set_token : Digest → UserSession → UserSession
set_token hash s = record s { token_hash = hash }

-- `id IN (…) OR (user_id IN (…) AND revoked_at IS NULL)`
unfoldable pub is_requested : List ℤ → List ℤ → UserSession → Bool
unfolding contains_id
is_requested ids users s =
    contains_id ids s.id || (contains_id users s.user_id && is_nil s.revoked_at)

-- `WHERE id = $1 AND revoked_at IS NULL`
unfoldable pub is_unrevoked : ℤ → UserSession → Bool
is_unrevoked id s = eq_ℤ s.id id && is_nil s.revoked_at

unfoldable pub join_state : UserSession → User → AuthenticationState
join_state s u = record {
  session = record {
    id = s.id;
    user_id = s.user_id;
    expires_at = s.expires_at;
    revoked_at = s.revoked_at;
    created_at = s.created_at;
  };
  user = u;
}

module _ (env : Environment) where
  -- `FROM user_sessions AS s JOIN users AS u ON u.id = s.user_id WHERE s.id = $1`
  unfoldable pub find_authentication_state : ℤ → Action AuthenticationState
  unfolding autocommit safe_columns join_state
  find_authentication_state id = autocommit env select_state λ s.
      elim (find_where (has_session_id id) s.sessions) [
        | none ↦ (err not_found, s)
        | some row ↦ elim (find_where (has_id row.user_id) s.users) [
          | none ↦ (err not_found, s)
          | some u ↦ (ok (join_state row (safe_columns u)), s)
        ]
      ]

  unfoldable pub find_session_owner : ℤ → Action ℤ
  unfolding autocommit
  find_session_owner id = autocommit env select_owner λ s.
      elim (find_where (has_session_id id) s.sessions) [
        | none ↦ (err not_found, s)
        | some row ↦ (ok row.user_id, s)
      ]

  -- An UPDATE of the one row that `p` finds; `missing` is what the caller makes of no row.
  unfoldable pub update_session_row :
      (UserSession → Bool)
      → (UserSession → UserSession)
      → Result (Unit {0})
      → Result (Unit {0})
      → Action (Unit {0})
  update_session_row p f missing violated s = elim (find_where p s.sessions) [
    | none ↦ (missing, s)
    | some row ↦
        if session_row_ok (f row)
        then (ok tt, record s { sessions = update_where p f s.sessions })
        else (violated, s)
  ]

  unfoldable pub revoke_session : RevokeSessionRequest → Action (Unit {0})
  unfolding autocommit_write update_session_row is_open_session_of set_revoked
      repository_internal_error
  revoke_session r = autocommit_write env update_revoked (
      update_session_row (is_open_session_of r) (set_revoked r.revoked_at) (ok tt)
        (err (repository_internal_error env update_revoked none)))

  unfoldable pub lock_rows : List ℤ → List ℤ → Action (List UserSession)
  unfolding run sort_by insert_by select_where is_requested
  lock_rows [] [] s = (ok [], s)
  lock_rows ids users s =
      run env lock_session_rows
        (λ t. (ok (sort_by session_before (select_where (is_requested ids users) t.sessions)), t)) s

  unfoldable pub lock_sessions : SessionLockRequest → Action (List UserSession)
  unfolding lock_rows sorted_unique_ids
  lock_sessions r =
      lock_rows (sorted_unique_ids r.session_ids) (sorted_unique_ids r.active_user_ids)

  unfoldable pub first_session : List UserSession → Action UserSession
  first_session [] = throw not_found
  first_session (s ∷ _) = pure s

  unfoldable pub lock_session : ℤ → Action UserSession
  unfolding lock_sessions first_session
  lock_session id =
      lock_sessions (record { session_ids = id ∷ []; active_user_ids = [] }) >>= first_session

  unfoldable pub lock_active_sessions : ℤ → Action (List UserSession)
  unfolding lock_sessions
  lock_active_sessions user_id =
      lock_sessions (record { session_ids = []; active_user_ids = user_id ∷ [] })

  unfoldable pub new_session : CreateSessionRecord → UserSession
  new_session r = record {
    id = env.next_session_id;
    user_id = r.user_id;
    token_hash = r.token_hash;
    expires_at = r.expires_at;
    revoked_at = none;
    created_at = r.created_at;
  }

  unfoldable pub insert_session_row : UserSession → Action UserSession
  unfolding repository_internal_error
  insert_session_row row s =
      if not (session_row_ok row)
        || any_where (has_session_id row.id) s.sessions
        || not (references_user s (some row.user_id))
      then (err (repository_internal_error env insert_session none), s)
      else (ok row, record s { sessions = s.sessions ++ row ∷ [] })

  unfoldable pub create_session : CreateSessionRecord → Action UserSession
  unfolding run new_session insert_session_row
  create_session r = run env insert_session (insert_session_row (new_session r))

  -- No row affected is ErrNotFound, and the primary key leaves no case of two rows.
  unfoldable pub rotate_session_token : ℤ → Digest → Action (Unit {0})
  unfolding run update_session_row set_token repository_internal_error
  rotate_session_token id hash = run env update_token (
      update_session_row (has_session_id id) (set_token hash) (err not_found)
        (err (repository_internal_error env update_token none)))

  unfoldable pub revoke_locked_session : Time → ℤ → Action (Unit {0})
  unfolding run update_session_row is_unrevoked set_revoked repository_internal_error
  revoke_locked_session at id = run env (revoke_row id) (
      update_session_row (is_unrevoked id) (set_revoked at)
        (err (repository_internal_error env (revoke_row id) none))
        (err (repository_internal_error env (revoke_row id) none)))

  unfoldable pub revoke_each : Time → List ℤ → Action (Unit {0})
  revoke_each at [] = pure tt
  revoke_each at (id ∷ ids) = do revoke_locked_session at id; revoke_each at ids

  unfoldable pub revoke_locked_sessions : List ℤ → Time → Action (Unit {0})
  unfolding revoke_each sorted_unique_ids
  revoke_locked_sessions ids at = revoke_each at (sorted_unique_ids ids)
