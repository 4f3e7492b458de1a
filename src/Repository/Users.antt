-- ===== src/Repository/Users.antt =====
-- infra/postgres/identity/user.go: the statements on `users`.
use content_platform.Prelude.{
  ℤ, Text, Bool, true, false, not, ◌&&◌, ◌||◌, Option, none, some, List, [], ◌∷◌, ◌++◌, is_positive,
  ltb_ℤ, sort_by, insert_by, select_where, find_where, update_where, any_where, if◌then◌else◌,
}
use content_platform.GoTime.{Time, is_after}
use content_platform.Domain.{User, status_eq, active, muted}
use content_platform.Errors.{Error, ok, err, email_exists, not_found}
use content_platform.Ports.{
  CreateUserRecord, LoginCredential, UserMutation, Field, unset, set_field,
}
use content_platform.Database.{
  Environment, insert_user, select_credential, select_user, lock_user_rows, update_user_row,
  recover_mute, user_row_ok, has_id, has_email,
}
use content_platform.Database.Monad.{Action, throw}
use content_platform.Repository.{
  repository_internal_error, run, autocommit, autocommit_write, sorted_unique_ids, contains_id,
}

unfoldable pub id_before : User → User → Bool
id_before u v = ltb_ℤ u.id v.id

-- The value of a column in an UPDATE: `CASE WHEN set THEN value ELSE column END`.
unfoldable pub field_or : {A : Type 0} → Field A → A → A
field_or unset old = old
field_or (set_field value) old = value

unfoldable pub field_is_set : {A : Type 0} → Field A → Bool
field_is_set unset = false
field_is_set (set_field value) = true

unfoldable pub user_mutation_has_changes : UserMutation → Bool
unfolding field_is_set
user_mutation_has_changes m =
    field_is_set m.display_name
    || field_is_set m.bio
    || field_is_set m.status
    || field_is_set m.muted_until
    || field_is_set m.violation_count
    || field_is_set m.updated_at
    || field_is_set m.deleted_at

unfoldable pub apply_mutation : UserMutation → User → User
unfolding field_or
apply_mutation m u = record u {
  display_name = field_or m.display_name u.display_name;
  bio = field_or m.bio u.bio;
  status = field_or m.status u.status;
  muted_until = field_or m.muted_until u.muted_until;
  violation_count = field_or m.violation_count u.violation_count;
  updated_at = field_or m.updated_at u.updated_at;
  deleted_at = field_or m.deleted_at u.deleted_at;
}

-- `status = 'muted' AND muted_until <= now`
unfoldable pub has_expired_mute : Time → User → Bool
has_expired_mute now u =
    status_eq u.status muted && elim u.muted_until [ none ↦ false | some t ↦ not (is_after t now) ]

unfoldable pub clear_mute : Time → User → User
clear_mute now u = record u { status = active; muted_until = none; updated_at = now }

unfoldable pub new_row : ℤ → CreateUserRecord → User
new_row id r = record {
  id = id;
  email = r.email;
  password_hash = r.password_hash;
  display_name = r.display_name;
  bio = r.bio;
  role = r.role;
  status = r.status;
  muted_until = r.muted_until;
  violation_count = r.violation_count;
  created_at = r.created_at;
  updated_at = r.updated_at;
  deleted_at = r.deleted_at;
}

-- `scanSafeUser` reads no password hash.
unfoldable pub safe_columns : User → User
safe_columns u = record u { password_hash = [] }

module _ (env : Environment) where
  -- The row with this id becomes `f` of itself, if it meets the constraints.
  unfoldable pub update_row : (User → Bool) → (User → User) → Error → Action User
  update_row p f violated s = elim (find_where p s.users) [
    | none ↦ (err not_found, s)
    | some u ↦
        if user_row_ok env (f u)
        then (ok (f u), record s { users = update_where p f s.users })
        else (err violated, s)
  ]

  -- The insertion itself: constraints first, then the unique indexes in the order of creation.
  unfoldable pub insert_row : User → Action User
  unfolding repository_internal_error
  insert_row row s =
      if not (user_row_ok env row) || any_where (has_id row.id) s.users
      then (err (repository_internal_error env insert_user none), s)
      else if any_where (has_email row.email) s.users
      then (err email_exists, s)
      else (ok row, record s { users = s.users ++ row ∷ [] })

  unfoldable pub create_user : CreateUserRecord → Action User
  unfolding autocommit_write new_row insert_row
  create_user r = autocommit_write env insert_user (insert_row (new_row env.next_user_id r))

  unfoldable pub find_login_credential : Text → Action LoginCredential
  unfolding autocommit
  find_login_credential email = autocommit env select_credential λ s.
      elim (find_where (has_email email) s.users) [
        | none ↦ (err not_found, s)
        | some u ↦ (
          ok (record {
            user_id = u.id;
            password_hash = u.password_hash;
            status = u.status;
            deleted_at = u.deleted_at;
          }),
          s,
        )
      ]

  unfoldable pub find_user : ℤ → Action User
  unfolding autocommit safe_columns
  find_user id = autocommit env select_user λ s. elim (find_where (has_id id) s.users) [
    | none ↦ (err not_found, s)
    | some u ↦ (ok (safe_columns u), s)
  ]

  -- `WHERE id IN (ids) ORDER BY id FOR UPDATE`
  unfoldable pub lock_rows : List ℤ → Action (List User)
  unfolding run sort_by insert_by select_where
  lock_rows [] s = (ok [], s)
  lock_rows (id ∷ ids) s =
      run env lock_user_rows
        (λ t. (ok (sort_by id_before (select_where (λ u. contains_id (id ∷ ids) u.id) t.users)), t))
        s

  unfoldable pub lock_users : List ℤ → Action (List User)
  unfolding lock_rows sorted_unique_ids
  lock_users ids = lock_rows (sorted_unique_ids ids)

  unfoldable pub update_user : UserMutation → Action User
  unfolding run update_row apply_mutation user_mutation_has_changes repository_internal_error
  update_user m =
      if not (is_positive m.user_id) || not (user_mutation_has_changes m)
      then throw (repository_internal_error env update_user_row none)
      else run env update_user_row (
          update_row (has_id m.user_id) (apply_mutation m)
            (repository_internal_error env update_user_row none))

  -- `none` where the source returns `false`: no row is muted up to now or earlier.
  unfoldable pub recover_expired_mute : ℤ → Time → Action (Option User)
  unfolding run clear_mute has_expired_mute repository_internal_error
  recover_expired_mute id now = run env (recover_mute id) λ s.
      let hit = λ (u : User). has_id id u && has_expired_mute now u in
      elim (find_where hit s.users) [
        | none ↦ (ok none, s)
        | some u ↦
            if user_row_ok env (clear_mute now u)
            then (
              ok (some (clear_mute now u)),
              record s { users = update_where hit (clear_mute now) s.users },
            )
            else (err (repository_internal_error env (recover_mute id) none), s)
      ]
