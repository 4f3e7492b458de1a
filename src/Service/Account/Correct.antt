-- ===== src/Service/Account/Correct.antt =====
-- Register and Logout as a whole: what a successful call has changed in the database.
use content_platform.Prelude.{
  eq_ℤ, ◌&&◌, some, Bool, false, Text, List, [], ◌∷◌, ◌++◌, ◌≡◌, none, refl, arith, inl, inr,
  any_where, find_where, update_where,
}
use content_platform.GoTime.{Time}
use content_platform.Domain.{User, UserSession, view, UserView, normalize_time, is_nil}
use content_platform.Domain.Validation.{
  TextRules, normalize_email, validate_email, validate_registration_password,
  normalize_display_name, validate_display_name,
}
use content_platform.Errors.{ok}
use content_platform.Ports.{RevokeSessionRequest}
use content_platform.Database.{Store, Environment, before_statement, has_email}
use content_platform.Database.Monad.Laws.{Result-cases}
use content_platform.Repository.Users.{create_user, new_row}
use content_platform.Repository.Sessions.{
  revoke_session, is_open_session_of, set_revoked, update_session_row,
}
use content_platform.Service.{Service}
use content_platform.Service.Steps.{steps}
use content_platform.Service.Account.{
  RegisterInput, register, registration_record, LogoutInput, logout,
}

-- A registration that adds one row to `before`.
pub record IsRegistered (env : Environment) (rules : TextRules) (service : Service)
    (input : RegisterInput) (before : Store) (result : UserView) (after : Store) : Type 0 where
  pub hash : Text
  pub row : User
  pub hashed : service.password_hasher.hash input.password ≡ ok hash
  pub built :
      row
      ≡ new_row env.next_user_id (
          registration_record
            (normalize_email rules input.email)
            hash
            (normalize_display_name input.display_name)
            (normalize_time env.clock_now))
  pub email_valid : validate_email rules row.email ≡ none
  pub password_valid : validate_registration_password input.password ≡ none
  pub name_valid : validate_display_name row.display_name ≡ none
  pub email_free : any_where (has_email row.email) before.users ≡ false
  pub shown : result ≡ view row
  pub stored : after ≡ record before { users = before.users ++ row ∷ [] }

module _ (env : Environment) (rules : TextRules) (service : Service) where
  -- A successful registration adds one active user with the role of a user. Its e-mail address and
  -- display name are the normalised and valid ones, its address was that of no other user, and its
  -- hash is what the hasher made of the valid password.
  pub register_sound :
      (input : RegisterInput) (s : Store) {result : UserView} {s' : Store}
      → register env rules service input s ≡ (ok result, s')
      → IsRegistered env rules service input (env.others before_statement s) result s'
  unfolding register create_user new_row registration_record content_platform.Service.now is_nil
  register_sound input s {result} {s'} h =
      elim (Result-cases (service.password_hasher.hash input.password)) [
        | inl (hash, e) ↦ record {
          hash = hash;
          row = new_row env.next_user_id (
              registration_record (normalize_email rules input.email) hash
                (normalize_display_name input.display_name) (normalize_time env.clock_now));
          hashed = e;
          built = refl;
          email_valid = grind steps;
          password_valid = grind steps;
          name_valid = grind steps;
          email_free = grind steps;
          shown = grind steps;
          stored = grind steps;
        }
        | inr (x, e) ↦ absurd (ground arith)
      ]

update_where-none :
    {A : Type 0} (p : A → Bool) (f : A → A) (xs : List A)
    → find_where p xs ≡ none
    → update_where p f xs ≡ xs
unfolding find_where update_where
update_where-none p f [] h = refl
update_where-none p f (x ∷ xs) h = ground (arith, update_where-none p f xs)

-- The session of the call, if it is open: its identifier and its user are those of the call.
abbrev pub is_own_open : LogoutInput → UserSession → Bool
is_own_open input row =
    eq_ℤ row.id input.session_id && eq_ℤ row.user_id input.user_id && is_nil row.revoked_at

closed_none :
    (input : LogoutInput) (t : Time) (rows : List UserSession)
    → any_where
        (is_own_open input)
        (update_where (is_own_open input) (λ row. record row { revoked_at = some t }) rows)
      ≡ false
unfolding any_where update_where is_nil
closed_none input t [] = refl
closed_none input t (row ∷ rest) = ground (arith, closed_none input t rest)

abbrev revocation : Environment → LogoutInput → RevokeSessionRequest
revocation env input = record {
  user_id = input.user_id;
  session_id = input.session_id;
  revoked_at = normalize_time env.clock_now;
}

logout_effect :
    (env : Environment) (input : LogoutInput) (s : Store) {s' : Store}
    → logout env input s ≡ (ok tt, s')
    → let before = env.others before_statement s in
      let r = revocation env input in
      s' ≡ record before {
        sessions = update_where (is_open_session_of r) (set_revoked r.revoked_at) before.sessions;
      }
unfolding logout revoke_session update_session_row content_platform.Service.now
logout_effect env input s h = grind (steps, update_where-none)

-- A successful logout has set the time of the call as the revocation of the session that has the
-- identifier and the user of the call, if it was open, and has changed no other row, of another user
-- or of this one: afterwards the user has no open session with that identifier.
pub logout_sound :
    (env : Environment) (input : LogoutInput) (s : Store) {s' : Store}
    → logout env input s ≡ (ok tt, s')
    → let before = env.others before_statement s in
      (any_where (is_own_open input) s'.sessions ≡ false)
      × (s' ≡ record before {
        sessions =
            update_where
              (is_own_open input)
              (λ row. record row { revoked_at = some (normalize_time env.clock_now) })
              before.sessions;
      })
unfolding is_open_session_of set_revoked
logout_sound env input s h =
    let e = logout_effect env input s h in
    (
      rw e (
          closed_none input (normalize_time env.clock_now)
            (env.others before_statement s).sessions),
      e,
    )
