-- ===== src/Service/Deletion/Correct.antt =====
-- DeleteMe as a whole: what a successful call has found in the database, and what it leaves there.
use content_platform.Prelude.{
  ℤ, true, false, ◌≡◌, none, some, List, [], ◌∷◌, ◌++◌, inl, inr, arith, subst, Mem, All,
  Bool-cases, eq_ℤ, any_where, update_where,
}
use content_platform.GoTime.{Time}
use content_platform.Domain.{User, UserSession, deleted, normalize_time}
use content_platform.Domain.Validation.{TextRules}
use content_platform.Errors.{ok, internal, session_invalid, new_internal_error}
use content_platform.Database.{Store, Environment, has_id, before_transaction}
use content_platform.Database.Monad.Laws.{>>=-ok}
use content_platform.Repository.{sorted_unique_ids}
use content_platform.Repository.Atomic.{within_tx-ok}
use content_platform.Repository.Users.{apply_mutation}
use content_platform.Repository.Locking.{open_sessions}
use content_platform.Repository.Revocation.{
  is_open_of, all_revoked, ids_of, all_revoked-open_sessions,
}
use content_platform.Service.Rows.{lock_user, lock_user-ok}
use content_platform.Service.Steps.{steps}
use content_platform.Service.Mute.Recovery.{recovered_users, recovered_audits}
use content_platform.Service.Deletion.{
  DeleteMeInput, delete_me, delete_user, delete_locked, deletion_mutation,
}
use content_platform.Service.Deletion.Sound.{delete_user-ok}

-- The deletion of a user found in `before`, that leaves `after`.
pub record IsDeleted (env : Environment) (input : DeleteMeInput) (before after : Store)
    : Type 0 where
  pub user : User
  pub user_stored : Mem user before.users
  pub identified : user.id ≡ input.user_id
  pub undeleted : user.deleted_at ≡ none
  pub current_open :
      any_where
        (λ (row : UserSession). eq_ℤ row.id input.session_id)
        (open_sessions before input.user_id)
      ≡ true
  pub marked :
      All
        (λ (u : User).
          has_id input.user_id u ≡ true
          → (u.status ≡ deleted)
            × (u.deleted_at ≡ some (normalize_time env.clock_now))
            × (u.muted_until ≡ none))
        after.users
  pub none_open : any_where (is_open_of input.user_id) after.sessions ≡ false
  pub stored : after ≡ record {
    users =
        update_where
          (has_id input.user_id)
          (apply_mutation (deletion_mutation input.user_id (normalize_time env.clock_now)))
          (recovered_users user (normalize_time env.clock_now) before.users);
    sessions =
        all_revoked
          (normalize_time env.clock_now)
          (sorted_unique_ids (ids_of (open_sessions before input.user_id)))
          before.sessions;
    audits = before.audits ++ recovered_audits user (normalize_time env.clock_now) input.request_id;
  }

deleted_are_marked :
    (id : ℤ) (t : Time) (rows : List User)
    → All
        (λ (u : User).
          has_id id u ≡ true
          → (u.status ≡ deleted) × (u.deleted_at ≡ some t) × (u.muted_until ≡ none))
        (update_where (has_id id) (apply_mutation (deletion_mutation id t)) rows)
unfolding update_where apply_mutation deletion_mutation
deleted_are_marked id t [] = tt
deleted_are_marked id t (row ∷ rest) = elim (Bool-cases (has_id id row)) [
  | inl e ↦ rw e ((λ _. ground arith), deleted_are_marked id t rest)
  | inr e ↦ rw e ((λ h. absurd (ground (arith, h, e))), deleted_are_marked id t rest)
]

module _ (env : Environment) (rules : TextRules) (input : DeleteMeInput) where
  delete_locked-ok :
      (s : Store) {s' : Store}
      → delete_locked env rules input s ≡ (ok tt, s')
      → IsDeleted env input s s'
  unfolding delete_locked
  delete_locked-ok s {s'} h =
      let id = input.user_id in
      let t = normalize_time env.clock_now in
      let lock = lock_user env new_internal_error id session_invalid (internal none) in
      let k = delete_user env rules input in
      let (user, u, e, f) = >>=-ok lock k s h in
      let (same, stored, identified) =
        lock_user-ok env new_internal_error id session_invalid (internal none) s e in
      let g = subst (λ v. k user v ≡ (ok tt, s')) same f in
      let (current, undeleted, final) = delete_user-ok env rules input user s g in
      let rows = recovered_users user t s.users in
      record {
        user = user;
        user_stored = stored;
        identified = identified;
        undeleted = undeleted;
        current_open = current;
        marked = rw (final, identified) (deleted_are_marked id t rows);
        none_open = rw final (all_revoked-open_sessions id t s);
        stored =
            subst
              (λ i. s' ≡ record {
                users =
                    update_where (has_id i) (apply_mutation (deletion_mutation i t))
                      (recovered_users user t s.users);
                sessions =
                    all_revoked t (sorted_unique_ids (ids_of (open_sessions s id))) s.sessions;
                audits = s.audits ++ recovered_audits user t input.request_id;
              })
              identified final;
      }

  -- A successful DeleteMe found the user, who was not deleted, with the session of the call open.
  -- Afterwards the user is marked as deleted at the time of the call and is not muted, no session of
  -- the user is open, and nothing else has changed but the lifting of a mute that had run out.
  pub delete_me_sound :
      (s : Store) {s' : Store}
      → delete_me env rules input s ≡ (ok tt, s')
      → IsDeleted env input (env.others before_transaction s) s'
  unfolding delete_me
  delete_me_sound s {s'} h =
      let callback = delete_locked env rules input in
      delete_locked-ok _ (within_tx-ok env callback s {a = tt} {s' = s'} (grind steps)).1
