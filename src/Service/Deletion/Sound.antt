-- ===== src/Service/Deletion/Sound.antt =====
-- What a successful DeleteMe has checked in its transaction, and the database that it leaves.
use content_platform.Prelude.{
  ℤ, Bool, true, ◌≡◌, Option, none, some, List, [], ◌∷◌, ◌++◌, inl, inr, arith, eq_ℤ, any_where,
  update_where,
}
use content_platform.Domain.{User, UserSession, is_nil, normalize_time}
use content_platform.Domain.Validation.{TextRules}
use content_platform.Errors.{ok}
use content_platform.Ports.{UserMutation}
use content_platform.Database.{Store, Environment, has_id}
use content_platform.Database.Monad.Laws.{Result-cases}
use content_platform.Repository.{sorted_unique_ids}
use content_platform.Repository.Atomic.{is_ok}
use content_platform.Repository.Users.{update_user, apply_mutation}
use content_platform.Repository.Sessions.{lock_active_sessions}
use content_platform.Repository.Locking.{
  open_sessions, lock_active_sessions-ok, lock_active_sessions-state,
}
use content_platform.Repository.Revocation.{all_revoked, ids_of, revoke_locked_sessions-state}
use content_platform.Service.Checks.{strict_authentication_user_error}
use content_platform.Service.Steps.{steps}
use content_platform.Service.Mute.Recovery.{
  recovered_users, recovered_audits, recovery-state, recovery-Continues, insert_pending-state,
}
use content_platform.Service.Deletion.{
  DeleteMeInput, delete_user, deletion_mutation, validate_from, validate_locked_active_sessions,
}

-- The sessions pass with their own identifiers, and the current one is looked for among them.
validate_from-ok :
    (user_id current_id : ℤ) (previous : Option ℤ) (sessions : List UserSession) {found : Bool}
    {ids : List ℤ}
    → validate_from user_id current_id previous sessions ≡ ok (found, ids)
    → (ids ≡ ids_of sessions)
      × (found ≡ any_where (λ (row : UserSession). eq_ℤ row.id current_id) sessions)
unfolding validate_from ids_of any_where
validate_from-ok user_id current_id previous [] h = ground arith
validate_from-ok user_id current_id previous (row ∷ rest) h =
    elim (Result-cases (validate_from user_id current_id (some row.id) rest)) [
      | inl ((f, later), e) ↦
          let (named, present) = validate_from-ok user_id current_id (some row.id) rest e in
          (ground (arith, e, named), ground (arith, e, present))
      | inr (x, e) ↦ absurd (ground (arith, e))
    ]

pub update_user-state :
    (env : Environment) (m : UserMutation) (s : Store)
    → let (r, s') = update_user env m s in
      is_ok r ≡ true
      → s' ≡ record s { users = update_where (has_id m.user_id) (apply_mutation m) s.users }
unfolding update_user
update_user-state env m s h = ground arith

strict_user_is_live :
    (rules : TextRules) (user : User) (id : ℤ) (secret_free : Bool)
    → strict_authentication_user_error rules user id secret_free ≡ none
    → user.deleted_at ≡ none
unfolding strict_authentication_user_error is_nil
strict_user_is_live rules user id secret_free h = ground arith

module _ (env : Environment) (rules : TextRules) where
  pub delete_user-ok :
      (input : DeleteMeInput) (user : User) (s : Store) {s' : Store}
      → delete_user env rules input user s ≡ (ok tt, s')
      → let t = normalize_time env.clock_now in
        let sessions = open_sessions s input.user_id in
        (any_where (λ (row : UserSession). eq_ℤ row.id input.session_id) sessions ≡ true)
        × (user.deleted_at ≡ none)
        × (s' ≡ record {
          users =
              update_where
                (has_id user.id)
                (apply_mutation (deletion_mutation user.id t))
                (recovered_users user t s.users);
          sessions = all_revoked t (sorted_unique_ids (ids_of sessions)) s.sessions;
          audits = s.audits ++ recovered_audits user t input.request_id;
        })
  unfolding delete_user validate_locked_active_sessions content_platform.Service.now
      content_platform.Service.fail_with
  delete_user-ok input user s h = elim (Result-cases (lock_active_sessions env input.user_id s).0) [
    | inl (sessions, locked) ↦
        let (_, all) =
          lock_active_sessions-ok env input.user_id s {rows = sessions}
            {s' = (lock_active_sessions env input.user_id s).1} (ground arith) in
        elim (Result-cases (validate_from input.user_id input.session_id none sessions)) [
          | inl ((found, ids), validated) ↦
              let (named, present) =
                validate_from-ok input.user_id input.session_id none sessions validated in
              (
                grind (arith, lock_active_sessions-state),
                grind (arith, lock_active_sessions-state, strict_user_is_live),
                grind (
                  steps, lock_active_sessions-state, update_user-state, recovery-state,
                  recovery-Continues, insert_pending-state, revoke_locked_sessions-state,
                ),
              )
          | inr (x, e) ↦ absurd (ground arith)
        ]
    | inr (x, e) ↦ absurd (ground arith)
  ]
