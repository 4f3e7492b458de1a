-- ===== src/Service/Profile/Correct.antt =====
-- UpdateMe as a whole: what a successful call has found in the database, and what it leaves there.
use content_platform.Prelude.{◌<◌, true, ◌≡◌, none, ◌++◌, inl, inr, arith, subst, Mem}
use content_platform.GoTime.{is_after_sound}
use content_platform.Domain.{User, UserView, UserSession, view, can_edit_profile, normalize_time}
use content_platform.Domain.Validation.{TextRules}
use content_platform.Errors.{ok, new_internal_error, internal, session_invalid}
use content_platform.Database.{Store, Environment, before_transaction}
use content_platform.Database.Monad.Laws.{Result-cases, >>=-ok}
use content_platform.Repository.{within_tx}
use content_platform.Repository.Atomic.{within_tx-ok}
use content_platform.Repository.Users.{field_or}
use content_platform.Repository.Sessions.{lock_session}
use content_platform.Repository.Locking.{lock_session-ok, lock_session-state}
use content_platform.Service.Checks.{secret_free_user}
use content_platform.Service.Rows.{lock_user, lock_user-ok}
use content_platform.Service.Steps.{steps}
use content_platform.Service.Mute.{recover_expired_mute_for_auth}
use content_platform.Service.Mute.Recovery.{
  IsRecovered, recovery-IsRecovered, recovered_users, recovered_audits, recovery-state,
  recovery-Continues, insert_pending-state,
}
use content_platform.Service.Untouched.{check_display_name-state, check_bio-state}
use content_platform.Service.Profile.{
  UpdateMeInput, update_me, update_valid, update_locked, update_profile, normalized_name,
}
use content_platform.Service.Profile.Sound.{
  written, write_mutation-state, write_mutation-Writes, check_own_session-ok,
  check_own_session-state,
}

-- A change of the profile of a user found in `before`, that leaves `after`.
pub record IsUpdated (env : Environment) (input : UpdateMeInput) (user : User) (before : Store)
    (result : User) (after : Store) : Type 0 where
  pub user_stored : Mem user before.users
  pub session : UserSession
  pub current : User
  pub session_stored : Mem session before.sessions
  pub session_identified : session.id ≡ input.session_id
  pub owned : session.user_id ≡ input.user_id
  pub unrevoked : session.revoked_at ≡ none
  pub unexpired : normalize_time env.clock_now < normalize_time session.expires_at
  pub recovered : IsRecovered user (normalize_time env.clock_now) before.users current
  pub same_user : current.id ≡ user.id
  pub allowed : can_edit_profile current.status ≡ true
  pub identified : result.id ≡ user.id
  pub named : result.display_name ≡ field_or input.display_name current.display_name
  pub described : result.bio ≡ field_or input.bio current.bio
  pub stored : after ≡ record {
    users =
        written input current
          (normalize_time env.clock_now)
          (recovered_users user (normalize_time env.clock_now) before.users);
    sessions = before.sessions;
    audits = before.audits ++ recovered_audits user (normalize_time env.clock_now) input.request_id;
  }

ruleset profile_steps = (
  steps, lock_session-state, check_own_session-state, recovery-state, recovery-Continues,
  write_mutation-state, write_mutation-Writes, insert_pending-state,
)

module _ (env : Environment) (rules : TextRules) (input : UpdateMeInput) where
  update_profile-ok :
      (user : User) (s : Store) {result : User} {s' : Store}
      → Mem user s.users
      → update_profile env rules input user s ≡ (ok result, s')
      → IsUpdated env input user s result s'
  unfolding update_profile secret_free_user content_platform.Service.now
  update_profile-ok user s {result} {s'} found h =
      let t = normalize_time env.clock_now in
      elim (Result-cases (lock_session env input.session_id s).0) [
        | inl (session, locked) ↦
            elim (Result-cases (recover_expired_mute_for_auth env user t input.request_id s).0) [
              | inl ((current, pending), recovered) ↦
                  let (stored, owned) =
                    lock_session-ok env input.session_id s {row = session}
                      {s' = (lock_session env input.session_id s).1} (ground arith) in
                  let (identified, mine, unrevoked) =
                    check_own_session-ok env rules input.user_id input.session_id session s {s' = s}
                      (grind profile_steps) in
                  record {
                    user_stored = found;
                    session = session;
                    current = current;
                    session_stored = owned;
                    session_identified = identified;
                    owned = mine;
                    unrevoked = unrevoked;
                    unexpired =
                        is_after_sound (normalize_time session.expires_at) t (grind profile_steps);
                    recovered =
                        recovery-IsRecovered env user t input.request_id s {u = current}
                          {pending = pending}
                          {s' = (recover_expired_mute_for_auth env user t input.request_id s).1}
                          (ground (arith, recovered));
                    same_user = grind profile_steps;
                    allowed = grind profile_steps;
                    identified = grind profile_steps;
                    named = grind profile_steps;
                    described = grind profile_steps;
                    stored = grind profile_steps;
                  }
              | inr (x, e) ↦ absurd (grind profile_steps)
            ]
        | inr (x, e) ↦ absurd (ground arith)
      ]

  update_locked-ok :
      (s : Store) {result : User} {s' : Store}
      → update_locked env rules input s ≡ (ok result, s')
      → (user : User) × (user.id ≡ input.user_id) × IsUpdated env input user s result s'
  unfolding update_locked
  update_locked-ok s {result} {s'} h =
      let id = input.user_id in
      let lock = lock_user env new_internal_error id session_invalid (internal none) in
      let k = update_profile env rules input in
      let (user, u, e, f) = >>=-ok lock k s h in
      let (same, stored, identified) =
        lock_user-ok env new_internal_error id session_invalid (internal none) s e in
      (
        user,
        identified,
        update_profile-ok user s stored (subst (λ v. k user v ≡ (ok result, s')) same f),
      )

  update_valid-ok :
      (s : Store) {result : UserView} {s' : Store}
      → update_valid env rules input s ≡ (ok result, s')
      → (updated : User) × (result ≡ view updated)
        × (within_tx env (update_locked env rules input) s ≡ (ok updated, s'))
  unfolding update_valid
  update_valid-ok s h = elim (Result-cases (within_tx env (update_locked env rules input) s).0) [
    | inl (updated, e) ↦ (updated, grind steps, grind steps)
    | inr (x, e) ↦ absurd (grind steps)
  ]

-- The input with its display name trimmed.
abbrev pub trimmed : UpdateMeInput → UpdateMeInput
trimmed raw = record raw { display_name = normalized_name raw.display_name }

-- A successful UpdateMe found the user, and the session of the call, open, unexpired and the user's
-- own. The user that it returns has the display name, trimmed, and the biography of the input where
-- they are set; where they are not, it has those of the row that was found or, where a mute that had
-- run out was lifted, of the muted row with its identifier. The row is only written if a field
-- changes, no session is touched, and nothing else changes but the lifting of a mute that had run
-- out.
pub update_me_sound :
    (env : Environment) (rules : TextRules) (raw : UpdateMeInput) (s : Store) {result : UserView}
    {s' : Store}
    → update_me env rules raw s ≡ (ok result, s')
    → (user : User) × (updated : User) × (user.id ≡ raw.user_id)
      × (result ≡ view updated)
      × IsUpdated env (trimmed raw) user (env.others before_transaction s) updated s'
unfolding update_me
update_me_sound env rules raw s {result} {s'} h =
    let input = trimmed raw in
    let callback = update_locked env rules input in
    let (updated, shown, e) =
      update_valid-ok env rules input s {result = result} {s' = s'}
        (grind (steps, check_display_name-state, check_bio-state)) in
    let (user, identified, all) =
      update_locked-ok env rules input (env.others before_transaction s)
        (within_tx-ok env callback s e).1 in
    (user, updated, identified, shown, all)
