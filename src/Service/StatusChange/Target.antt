-- ===== src/Service/StatusChange/Target.antt =====
-- The target's part of ChangeUserStatus: what it checks, and the sessions that it leaves.
use content_platform.Prelude.{
  Text, true, ◌&&◌, Option, none, some, List, ◌≡◌, ◌⊎◌, inl, inr, arith, eq_ℤ_sound, Bool-cases,
  subst, ◌∙◌,
}
use content_platform.GoTime.{Time}
use content_platform.Domain.{User, UserSession, role_user, status_eq, banned, active, is_nil}
use content_platform.Domain.Validation.{TextRules}
use content_platform.Errors.{ok}
use content_platform.Ports.{AuditEntry}
use content_platform.Database.{Store, Environment}
use content_platform.Database.Monad.Laws.{Result-cases}
use content_platform.Repository.Atomic.{is_ok}
use content_platform.Repository.Users.{recover_expired_mute}
use content_platform.Service.Checks.{
  should_recover_expired_mute, secret_free_user, optional_times_equal,
}
use content_platform.Service.Steps.{steps}
use content_platform.Service.Mute.{recover_expired_mute_for_auth, valid_recovered_auth_user}
use content_platform.Service.Mute.Recovery.{recovery-state, IsRecovered, recovery-IsRecovered}
use content_platform.Service.StatusChange.{ChangeUserStatusInput}
use content_platform.Service.StatusChange.Run.{
  is_banning_no_op, recover_if_expired, check_target, target_role_error, change_recovered,
  change_target,
}
use content_platform.Service.StatusChange.Apply.{
  revoked_sessions, apply_status-ok, insert_pending_status_audits-state,
}

banned_is_banned :
    (user : User) (muted_until : Option Time)
    → status_eq user.status banned ≡ true
    → optional_times_equal user.muted_until none ≡ true
    → is_banning_no_op (some user) ≡ true
unfolding is_banning_no_op optional_times_equal is_nil
banned_is_banned user muted_until h k = ground arith

-- What a change of the status of `found` has checked, and the sessions `after` that it leaves.
abbrev pub IsChanged :
    ChangeUserStatusInput
    → User
    → List UserSession
    → Time
    → List UserSession
    → User
    → List UserSession
    → Type 0
IsChanged input found sessions t before u after =
    (found.deleted_at ≡ none)
    × (found.role ≡ role_user)
    × (u.id ≡ found.id)
    × (status_eq u.status input.new_status ≡ true)
    × ((after ≡ revoked_sessions input sessions t before)
        ⊎ ((after ≡ before)
            × (status_eq input.new_status banned ≡ true → is_banning_no_op (some found) ≡ true)))

already_banned :
    (input : ChangeUserStatusInput) (found current : User) (muted_until : Option Time)
    → (status_eq input.new_status banned ≡ true → muted_until ≡ none)
    → ((current ≡ found) ⊎ (status_eq current.status active ≡ true))
    → status_eq current.status input.new_status ≡ true
    → optional_times_equal current.muted_until muted_until ≡ true
    → status_eq input.new_status banned ≡ true
    → is_banning_no_op (some found) ≡ true
unfolding status_eq is_banning_no_op optional_times_equal is_nil
already_banned input found current muted_until none_set kept same until ban =
    ground (arith, none_set, kept, same, until, ban)

module _ (env : Environment) (rules : TextRules) where
  pub recover_if_expired-state :
      (user : User) (t : Time) (request_id : Text) (s : Store)
      → let (r, s') = recover_if_expired env rules user t request_id s in
        is_ok r ≡ true → (s'.sessions ≡ s.sessions) × (s'.audits ≡ s.audits)
  unfolding recover_if_expired
  recover_if_expired-state user t request_id s h =
      elim (Bool-cases (should_recover_expired_mute user t)) [
        | inl e ↦
            let g = recovery-state env user t request_id s in
            (ground (arith, e, g), ground (arith, e, g))
        | inr e ↦ (ground (arith, e), ground (arith, e))
      ]

  -- The user that is gone on with is the one that was found, or is active.
  pub recover_if_expired-ok :
      (user : User) (t : Time) (request_id : Text) (s : Store) {u : User}
      {pending : Option AuditEntry} {s' : Store}
      → recover_if_expired env rules user t request_id s ≡ (ok (u, pending), s')
      → (u.id ≡ user.id) × ((u ≡ user) ⊎ (status_eq u.status active ≡ true))
  unfolding recover_if_expired recover_expired_mute_for_auth valid_recovered_auth_user
      should_recover_expired_mute recover_expired_mute
  recover_if_expired-ok user t request_id s {u} h = ground (arith, eq_ℤ_sound u.id user.id)

  pub recover_if_expired-IsRecovered :
      (user : User) (t : Time) (request_id : Text) (s : Store) {u : User}
      {pending : Option AuditEntry} {s' : Store}
      → recover_if_expired env rules user t request_id s ≡ (ok (u, pending), s')
      → IsRecovered user t s.users u
  unfolding recover_if_expired
  recover_if_expired-IsRecovered user t request_id s {u} {pending} {s'} h =
      elim (Bool-cases (should_recover_expired_mute user t)) [
        | inl e ↦
            recovery-IsRecovered env user t request_id s {u = u} {pending = pending} {s' = s'}
              (ground (arith, e, h))
        | inr e ↦ inl (e, ground (arith, e, h))
      ]

  check_target-state :
      (input : ChangeUserStatusInput) (user : User) (s : Store)
      → (check_target env rules input user s).1 ≡ s
  unfolding check_target
  check_target-state input user s = grind steps

  check_target-ok :
      (input : ChangeUserStatusInput) (user : User) (s : Store) {s' : Store}
      → check_target env rules input user s ≡ (ok tt, s')
      → (user.deleted_at ≡ none) × (user.role ≡ role_user)
  unfolding check_target target_role_error is_nil content_platform.Service.fail_with
  check_target-ok input user s h = ground arith

  change_recovered-ok :
      (input : ChangeUserStatusInput) (reason : Text) (muted_until : Option Time) (target : User)
      (sessions : List UserSession) (actor_audit audit : Option AuditEntry) (t : Time) (s : Store)
      {u : User} {s' : Store}
      → change_recovered env rules input reason muted_until target sessions actor_audit audit t s
        ≡ (ok u, s')
      → (status_eq u.status input.new_status ≡ true)
        × (u.id ≡ target.id)
        × ((s'.sessions ≡ revoked_sessions input sessions t s.sessions)
            ⊎ ((status_eq target.status input.new_status ≡ true)
                × (optional_times_equal target.muted_until muted_until ≡ true)
                × (s'.sessions ≡ s.sessions)))
  unfolding change_recovered secret_free_user
  change_recovered-ok input reason muted_until target sessions actor_audit audit t s {u} {s'} h =
      elim (Bool-cases (
        status_eq target.status input.new_status
        && optional_times_equal target.muted_until muted_until)) [
          | inl e ↦ (
            ground (arith, e),
            ground (arith, e),
            inr (
              ground (arith, e),
              ground (arith, e),
              grind (arith, insert_pending_status_audits-state),
            ),
          )
          | inr e ↦
              let (status, same, stored) =
                apply_status-ok env rules input reason muted_until target sessions actor_audit audit
                  t s {u = u} {s' = s'} (ground (arith, e)) in
              (status, same, inl (ground (arith, stored)))
        ]

  pub change_target-ok :
      (input : ChangeUserStatusInput) (reason : Text) (muted_until : Option Time) (found : User)
      (sessions : List UserSession) (actor_audit : Option AuditEntry) (t : Time) (s : Store)
      {u : User} {s' : Store}
      → (status_eq input.new_status banned ≡ true → muted_until ≡ none)
      → change_target env rules input reason muted_until found sessions actor_audit t s ≡ (ok u, s')
      → IsChanged input found sessions t s.sessions u s'.sessions
  unfolding change_target
  change_target-ok input reason muted_until found sessions actor_audit t s {u} {s'} none_set h =
      let recovery = recover_if_expired env rules found t input.request_id s in
      elim (Result-cases recovery.0) [
        | inl ((current, audit), e) ↦
            let (undeleted, role) =
              check_target-ok input found s {s' = s} (grind (arith, check_target-state)) in
            let (same, kept) =
              recover_if_expired-ok found t input.request_id s {u = current} {pending = audit}
                {s' = recovery.1} (ground (arith, e)) in
            let (unmoved, _) =
              recover_if_expired-state found t input.request_id s (ground (arith, e)) in
            let changed =
              change_recovered-ok input reason muted_until current sessions actor_audit audit t
                recovery.1 {u = u} {s' = s'} (grind (arith, check_target-state)) in
            (
              undeleted,
              role,
              changed.1 ∙ same,
              changed.0,
              elim changed.2 [
                | inl g ↦
                    inl (
                      subst (λ rows. s'.sessions ≡ revoked_sessions input sessions t rows) unmoved
                        g)
                | inr (status, until, g) ↦ inr (
                  g ∙ unmoved,
                  already_banned input found current muted_until none_set kept status until,
                )
              ],
            )
        | inr (x, e) ↦ absurd (grind (arith, check_target-state))
      ]
