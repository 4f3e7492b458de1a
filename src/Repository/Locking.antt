-- ===== src/Repository/Locking.antt =====
-- What the locking reads return: rows of the database, which they leave as it is.
use content_platform.Prelude.{
  ℤ, ◌≡◌, refl, List, [], ◌∷◌, Mem, All, sort_by, select_where, sorted_rows, arith, subst,
}
use content_platform.Domain.{User, UserSession}
use content_platform.Errors.{ok}
use content_platform.Ports.{SessionLockRequest}
use content_platform.Database.{Store, Environment}
use content_platform.Database.Monad.Laws.{>>=-ok}
use content_platform.Repository.{sorted_unique_ids, drop_repeats, contains_id}
use content_platform.Repository.Users.{lock_users, id_before}
use content_platform.Repository.Users
use content_platform.Repository.Sessions.{
  lock_session, lock_sessions, lock_active_sessions, session_before, is_requested, first_session,
}
use content_platform.Repository.Sessions

-- `users` are rows of `s`.
abbrev pub AreRows : Store → List User → Type 0
AreRows s users = All (λ u. Mem u s.users) users

abbrev pub AreSessionRows : Store → List UserSession → Type 0
AreSessionRows s sessions = All (λ row. Mem row s.sessions) sessions

-- The sessions that are open for a user, in the order of their identifiers.
abbrev pub open_sessions : Store → ℤ → List UserSession
open_sessions s user_id =
    sort_by session_before (select_where (is_requested [] (user_id ∷ [])) s.sessions)

abbrev one_session : ℤ → SessionLockRequest
one_session id = record { session_ids = id ∷ []; active_user_ids = [] }

module _ (env : Environment) where
  lock_rows-ok :
      (ids : List ℤ) (s : Store) {users : List User} {s' : Store}
      → Users.lock_rows env ids s ≡ (ok users, s')
      → (s' ≡ s) × AreRows s users
  unfolding Users.lock_rows
  lock_rows-ok [] s {users} h =
      (ground arith, subst (AreRows s) {x = []} {y = users} (ground arith) tt)
  lock_rows-ok (id ∷ ids) s {users} h =
      let p = λ (u : User). contains_id (id ∷ ids) u.id in
      (
        ground arith,
        subst (AreRows s) {x = sort_by id_before (select_where p s.users)} {y = users}
            (ground arith) (sorted_rows id_before p s.users),
      )

  pub lock_users-ok :
      (ids : List ℤ) (s : Store) {users : List User} {s' : Store}
      → lock_users env ids s ≡ (ok users, s')
      → (s' ≡ s) × AreRows s users
  unfolding lock_users
  lock_users-ok ids s h = lock_rows-ok (sorted_unique_ids ids) s h

  lock_session_rows-ok :
      (ids users : List ℤ) (s : Store) {rows : List UserSession} {s' : Store}
      → Sessions.lock_rows env ids users s ≡ (ok rows, s')
      → (s' ≡ s) × AreSessionRows s rows
  unfolding Sessions.lock_rows
  lock_session_rows-ok [] [] s {rows} h =
      (ground arith, subst (AreSessionRows s) {x = []} {y = rows} (ground arith) tt)
  lock_session_rows-ok ids users s {rows} h = (
    ground arith,
    subst (AreSessionRows s)
        {x = sort_by session_before (select_where (is_requested ids users) s.sessions)} {y = rows}
        (ground arith) (sorted_rows session_before (is_requested ids users) s.sessions),
  )

  pub lock_sessions-ok :
      (r : SessionLockRequest) (s : Store) {rows : List UserSession} {s' : Store}
      → lock_sessions env r s ≡ (ok rows, s')
      → (s' ≡ s) × AreSessionRows s rows
  unfolding lock_sessions
  lock_sessions-ok r s h =
      lock_session_rows-ok (sorted_unique_ids r.session_ids) (sorted_unique_ids r.active_user_ids) s
        h

  first_session-ok :
      (rows : List UserSession) (s : Store) {row : UserSession} {s' : Store}
      → AreSessionRows s rows
      → first_session env rows s ≡ (ok row, s')
      → (s' ≡ s) × Mem row s.sessions
  unfolding first_session
  first_session-ok [] s all h = absurd (cc)
  first_session-ok (x ∷ rows) s {row} all h =
      (ground arith, subst (λ r. Mem r s.sessions) {x = x} {y = row} (ground arith) all.0)

  pub lock_session-ok :
      (id : ℤ) (s : Store) {row : UserSession} {s' : Store}
      → lock_session env id s ≡ (ok row, s')
      → (s' ≡ s) × Mem row s.sessions
  unfolding lock_session
  lock_session-ok id s {row} {s'} h =
      let request = one_session id in
      let (rows, t, e, f) = >>=-ok (lock_sessions env request) (first_session env) s h in
      let found = lock_sessions-ok request s e in
      first_session-ok rows s found.1
        (subst (λ u. first_session env rows u ≡ (ok row, s')) found.0 f)

  pub lock_active_sessions-ok :
      (user_id : ℤ) (s : Store) {rows : List UserSession} {s' : Store}
      → lock_active_sessions env user_id s ≡ (ok rows, s')
      → (s' ≡ s) × (rows ≡ open_sessions s user_id)
  unfolding lock_active_sessions Sessions.lock_rows sorted_unique_ids drop_repeats
  lock_active_sessions-ok user_id s h = ground arith

  lock_rows-state : (ids : List ℤ) (s : Store) → (Users.lock_rows env ids s).1 ≡ s
  unfolding Users.lock_rows
  lock_rows-state [] s = refl
  lock_rows-state (id ∷ ids) s = ground arith

  pub lock_users-state : (ids : List ℤ) (s : Store) → (lock_users env ids s).1 ≡ s
  unfolding lock_users
  lock_users-state ids s = lock_rows-state (sorted_unique_ids ids) s

  lock_session_rows-state :
      (ids users : List ℤ) (s : Store) → (Sessions.lock_rows env ids users s).1 ≡ s
  unfolding Sessions.lock_rows
  lock_session_rows-state [] [] s = refl
  lock_session_rows-state ids users s = ground arith

  pub lock_sessions-state : (r : SessionLockRequest) (s : Store) → (lock_sessions env r s).1 ≡ s
  unfolding lock_sessions
  lock_sessions-state r s =
      lock_session_rows-state (sorted_unique_ids r.session_ids)
        (sorted_unique_ids r.active_user_ids) s

  pub lock_active_sessions-state :
      (user_id : ℤ) (s : Store) → (lock_active_sessions env user_id s).1 ≡ s
  unfolding lock_active_sessions
  lock_active_sessions-state user_id s =
      lock_sessions-state (record { session_ids = []; active_user_ids = user_id ∷ [] }) s

  pub lock_session-state : (id : ℤ) (s : Store) → (lock_session env id s).1 ≡ s
  unfolding lock_session first_session
  lock_session-state id s = ground (arith, lock_sessions-state (one_session id) s)
