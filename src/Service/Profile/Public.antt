-- ===== src/Service/Profile/Public.antt =====
-- PublicUser as a whole: what a successful call has found, shows and leaves.
use content_platform.Prelude.{
  [], ◌≡◌, ◌⊎◌, true, some, inl, inr, arith, find_where, Option-cases, Bool-cases, eq_ℤ_sound,
  subst, ℤ,
}
use content_platform.GoTime.{Time}
use content_platform.Domain.{User, PublicUserView, public_view, normalize_time}
use content_platform.Domain.Validation.{TextRules}
use content_platform.Errors.{ok}
use content_platform.Database.{
  at_entry, after_read, after_clock, Store, Environment, has_id, before_statement,
  before_transaction,
}
use content_platform.Database.Monad.Laws.{Result-cases}
use content_platform.Repository.Users.{find_user, safe_columns}
use content_platform.Service.Steps.{steps, check_live_context-state, check_context-state}
use content_platform.Service.Untouched.{find_user-state}
use content_platform.Service.Checks.{
  should_recover_expired_mute, valid_profile_user_structure, valid_profile_user_fields,
}
use content_platform.Service.Mute.{recover_expired_mute_after_read}
use content_platform.Service.Mute.AfterRead.{IsLifted, recover_expired_mute_after_read-ok}
use content_platform.Service.Profile.{PublicUserInput, public_user, refreshed_public_user}

-- A user found in `before`, the user that is shown, and the database that is left.
pub record IsShown (env : Environment) (rules : TextRules) (input : PublicUserInput)
    (before : Store) (result : PublicUserView) (after : Store) : Type 0 where
  pub row : User
  pub shown : User
  pub row_found : find_where (has_id input.user_id) before.users ≡ some row
  pub viewed : result ≡ public_view shown
  pub valid : valid_profile_user_structure rules shown input.user_id true ≡ true
  pub effect :
      ((after ≡ before) × (shown ≡ record row { password_hash = [] }))
      ⊎ IsLifted input.user_id
          (normalize_time env.clock_now)
          input.request_id
          (env.others before_transaction before)
          shown
          after

find_user-ok :
    (env : Environment) (id : ℤ) (s : Store) {user : User}
    → (find_user env id s).0 ≡ ok user
    → (row : User) × (find_where (has_id id) (env.others before_statement s).users ≡ some row)
      × (user ≡ record row { password_hash = [] })
unfolding find_user safe_columns
find_user-ok env id s h =
    elim (Option-cases (find_where (has_id id) (env.others before_statement s).users)) [
      | inl e ↦ absurd (ground arith)
      | inr (row, e) ↦ (row, e, ground arith)
    ]

valid_user-id :
    (rules : TextRules) (user : User) (id : ℤ)
    → valid_profile_user_structure rules user id true ≡ true
    → user.id ≡ id
unfolding valid_profile_user_structure valid_profile_user_fields
valid_user-id rules user id h = ground (arith, eq_ℤ_sound user.id id)

module _ (env : Environment) (rules : TextRules) where
  refreshed_public_user-ok :
      (input : PublicUserInput) (user : User) (t : Time) (s : Store) {u : User} {s' : Store}
      → valid_profile_user_structure rules user input.user_id true ≡ true
      → refreshed_public_user env rules input user t s ≡ (ok u, s')
      → (valid_profile_user_structure rules u input.user_id true ≡ true)
        × (((s' ≡ s) × (u ≡ user))
            ⊎ IsLifted user.id t input.request_id (env.others before_transaction s) u s')
  unfolding refreshed_public_user
  refreshed_public_user-ok input user t s {u} {s'} valid h =
      elim (Bool-cases (should_recover_expired_mute user t)) [
        | inr e ↦ (ground (arith, e, h, valid), inl (ground (arith, e, h), ground (arith, e, h)))
        | inl e ↦
            elim (Result-cases
              (recover_expired_mute_after_read env rules user t input.request_id s).0) [
                | inl (v, f) ↦ (
                  ground (arith, e, f, h),
                  inr (
                      recover_expired_mute_after_read-ok env rules user t input.request_id s {u = u}
                        {s' = s'} (ground (arith, e, f, h)) e),
                )
                | inr (x, f) ↦ absurd (ground (arith, e, f, h))
              ]
      ]

  -- A successful PublicUser found a row with the identifier of the call. Either it changes nothing and
  -- shows the public view of that row without its password hash, or it lifts the mute, if that had run
  -- out, of the row that it locks under that identifier and shows that row as it is then. The user
  -- that is shown passes the tests of a stored user.
  pub public_user_sound :
      (input : PublicUserInput) (s : Store) {result : PublicUserView} {s' : Store}
      → public_user env rules input s ≡ (ok result, s')
      → IsShown env rules input (env.others before_statement s) result s'
  unfolding public_user content_platform.Service.now
  public_user_sound input s {result} {s'} h =
      let before = env.others before_statement s in
      let t = normalize_time env.clock_now in
      elim (Result-cases (find_user env input.user_id s).0) [
        | inr (x, e) ↦ absurd (grind (steps, find_user-state))
        | inl (user, e) ↦
            elim (Result-cases (refreshed_public_user env rules input user t before).0) [
              | inr (x, f) ↦ absurd (grind (steps, find_user-state))
              | inl (shown, f) ↦
                  let (row, found, read) = find_user-ok env input.user_id s e in
                  let valid : valid_profile_user_structure rules user input.user_id true ≡ true =
                    grind (steps, find_user-state) in
                  let run : refreshed_public_user env rules input user t before ≡ (ok shown, s') =
                    grind (steps, find_user-state) in
                  let (still, effect) =
                    refreshed_public_user-ok input user t before {u = shown} {s' = s'} valid run in
                  record {
                    row = row;
                    shown = shown;
                    row_found = found;
                    viewed = ground (
                      arith,
                      h,
                      run,
                      e,
                      find_user-state env input.user_id s,
                      check_live_context-state env at_entry s,
                      check_context-state env after_read before,
                      check_context-state env after_clock before,
                    );
                    valid = still;
                    effect =
                        subst
                          (λ id.
                            ((s' ≡ before) × (shown ≡ record row { password_hash = [] }))
                            ⊎ IsLifted id t input.request_id (env.others before_transaction before)
                                shown s')
                          (valid_user-id rules user input.user_id valid)
                          (subst
                            (λ read.
                              ((s' ≡ before) × (shown ≡ read))
                              ⊎ IsLifted user.id t input.request_id
                                  (env.others before_transaction before) shown s')
                            read effect);
                  }
            ]
      ]
