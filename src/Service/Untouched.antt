-- ===== src/Service/Untouched.antt =====
-- Calls of the service that return an error. A commit can be carried out and report an error all the
-- same, which the caller sees as an internal error.
use content_platform.Prelude.{ℤ, Text, Bool, ◌≡◌, ◌⊎◌, true, false, arith}
use content_platform.Domain.Validation.{TextRules}
use content_platform.Errors.{Error, Result, ok, err, is_internal}
use content_platform.Ports.{Field}
use content_platform.Database.{Store, Environment, before_statement, insert_user, update_revoked}
use content_platform.Repository.Atomic.{
  is_write_lost, is_commit_lost, is_ok, Untouched, within_tx-state, within_tx-refused,
}
use content_platform.Repository.Users.{find_login_credential, find_user, create_user}
use content_platform.Repository.Sessions.{
  find_session_owner, find_authentication_state, revoke_session,
}
use content_platform.Service.{Service, check_live_context}
use content_platform.Service.Steps.{steps}
use content_platform.Service.Refresh.{RefreshInput, refresh}
use content_platform.Service.Login.{LoginInput, Outcome, login, read_credential, accept_outcome}
use content_platform.Service.Account.{RegisterInput, register, LogoutInput, logout}
use content_platform.Service.Profile.{
  UpdateMeInput, update_me, update_valid, check_display_name, check_bio,
}
use content_platform.Service.Deletion.{DeleteMeInput, delete_me}
use content_platform.Service.StatusChange.{ChangeUserStatusInput}
use content_platform.Service.StatusChange.Run.{change_user_status}

abbrev is_internal_result : {A : Type 0} → Result A → Bool
is_internal_result (ok a) = false
is_internal_result (err e) = is_internal e

module _ (env : Environment) where
  pub find_session_owner-state :
      (id : ℤ) (s : Store) → (find_session_owner env id s).1 ≡ env.others before_statement s
  unfolding find_session_owner
  find_session_owner-state id s = ground arith

  pub find_login_credential-state :
      (email : Text) (s : Store)
      → (find_login_credential env email s).1 ≡ env.others before_statement s
  unfolding find_login_credential
  find_login_credential-state email s = ground arith

  pub find_user-state :
      (id : ℤ) (s : Store) → (find_user env id s).1 ≡ env.others before_statement s
  unfolding find_user
  find_user-state id s = ground arith

  pub find_authentication_state-state :
      (id : ℤ) (s : Store) → (find_authentication_state env id s).1 ≡ env.others before_statement s
  unfolding find_authentication_state
  find_authentication_state-state id s = ground arith

module _ (env : Environment) (service : Service) where
  -- A refresh that returns an error has changed nothing, unless its commit was carried out and
  -- reported an error.
  pub refresh-Untouched :
      (input : RefreshInput) (s : Store) {e : Error} {s' : Store}
      → refresh env service input s ≡ (err e, s')
      → Untouched env s s' ⊎ (is_commit_lost env ≡ true)
  unfolding refresh check_live_context
  refresh-Untouched input s h = grind (arith, find_session_owner-state, within_tx-state)

pub accept_outcome-state :
    (o : Outcome) (matched : Bool) (s : Store) → (accept_outcome o matched s).1 ≡ s
unfolding accept_outcome
accept_outcome-state o matched s = ground arith

pub check_display_name-state : (f : Field Text) (s : Store) → (check_display_name f s).1 ≡ s
unfolding check_display_name
check_display_name-state f s = ground arith

pub check_bio-state : (f : Field Text) (s : Store) → (check_bio f s).1 ≡ s
unfolding check_bio
check_bio-state f s = ground arith

module _ (env : Environment) (rules : TextRules) (service : Service) where
  read_credential-state :
      (input : LoginInput) (s : Store)
      → let s' = (read_credential env rules service input s).1 in
        (s' ≡ s) ⊎ (s' ≡ env.others before_statement s)
  unfolding read_credential
  read_credential-state input s = grind (arith, find_login_credential-state)

  -- A login that returns an error has changed nothing, unless its commit was carried out and
  -- reported an error.
  pub login-Untouched :
      (input : LoginInput) (s : Store) {e : Error} {s' : Store}
      → login env rules service input s ≡ (err e, s')
      → Untouched env s s' ⊎ (is_commit_lost env ≡ true)
  unfolding login
  login-Untouched input s h =
      grind (steps, read_credential-state, accept_outcome-state, within_tx-state)

  -- A registration that returns an error has added no user and changed nothing, unless its statement
  -- was carried out and reported an error.
  pub register-Untouched :
      (input : RegisterInput) (s : Store) {e : Error} {s' : Store}
      → register env rules service input s ≡ (err e, s')
      → Untouched env s s' ⊎ (is_write_lost env insert_user ≡ true)
  unfolding register create_user
  register-Untouched input s h = grind steps

module _ (env : Environment) where
  -- A logout that returns an error has changed nothing, unless its statement was carried out and
  -- reported an error.
  pub logout-Untouched :
      (input : LogoutInput) (s : Store) {e : Error} {s' : Store}
      → logout env input s ≡ (err e, s')
      → Untouched env s s' ⊎ (is_write_lost env update_revoked ≡ true)
  unfolding logout revoke_session
  logout-Untouched input s h = grind steps

module _ (env : Environment) (rules : TextRules) where
  -- A DeleteMe that returns an error has changed nothing, unless its commit was carried out and
  -- reported an error.
  pub delete_me-Untouched :
      (input : DeleteMeInput) (s : Store) {e : Error} {s' : Store}
      → delete_me env rules input s ≡ (err e, s')
      → Untouched env s s' ⊎ (is_commit_lost env ≡ true)
  unfolding delete_me
  delete_me-Untouched input s h = grind (steps, within_tx-state)

  update_valid-refused :
      (input : UpdateMeInput) (s : Store)
      → let (r, s') = update_valid env rules input s in
        Untouched env s s' ⊎ (is_internal_result r ≡ true) ⊎ (is_ok r ≡ true)
  unfolding update_valid is_internal
  update_valid-refused input s = grind (steps, within_tx-refused)

  -- An UpdateMe that returns an error other than the internal one has changed nothing.
  pub update_me-Untouched :
      (input : UpdateMeInput) (s : Store) {e : Error} {s' : Store}
      → update_me env rules input s ≡ (err e, s')
      → is_internal e ≡ false
      → Untouched env s s'
  unfolding update_me
  update_me-Untouched input s h p =
      grind (steps, update_valid-refused, check_display_name-state, check_bio-state)

  -- A ChangeUserStatus that returns an error other than the internal one has changed nothing.
  pub change_user_status-Untouched :
      (input : ChangeUserStatusInput) (s : Store) {e : Error} {s' : Store}
      → change_user_status env rules input s ≡ (err e, s')
      → is_internal e ≡ false
      → Untouched env s s'
  unfolding change_user_status is_internal
  change_user_status-Untouched input s h p = grind (steps, within_tx-refused)
