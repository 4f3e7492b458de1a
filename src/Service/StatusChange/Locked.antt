-- ===== src/Service/StatusChange/Locked.antt =====
-- The transaction of ChangeUserStatus: what each of its steps has checked when it succeeds.
use content_platform.Prelude.{
  ℤ, Text, true, false, not, ◌&&◌, Option, none, some, List, [], ◌∷◌, ◌≡◌, inl, inr, arith, eq_ℤ,
  eq_ℤ_sound, Bool-cases, subst, Mem,
}
use content_platform.GoTime.{Time, is_after}
use content_platform.Domain.{
  User, UserSession, role_admin, role_eq, status_eq, banned, is_nil, normalize_time,
}
use content_platform.Domain.Validation.{TextRules}
use content_platform.Errors.{ok}
use content_platform.Ports.{AuditEntry}
use content_platform.Database.{Store, Environment}
use content_platform.Database.Monad.Laws.{Result-cases}
use content_platform.Repository.Users.{lock_users}
use content_platform.Repository.Sessions.{lock_sessions, lock_session}
use content_platform.Repository.Locking.{
  AreRows, lock_users-state, lock_sessions-state, lock_session-state, lock_sessions-ok,
  lock_session-ok,
}
use content_platform.Repository.Revocation.{Covers, ids_of}
use content_platform.Service.Steps.{steps}
use content_platform.Service.StatusChange.{
  ChangeUserStatusInput, place_users, validate_status_actor,
}
use content_platform.Service.StatusChange.Run.{
  is_banning_no_op, lock_administrative_sessions, check_administrative_session, recover_if_expired,
  required_user, change_target, change_locked,
}
use content_platform.Service.StatusChange.Sessions.{ban_locks, ban_locks-Covers, sorted_out-Mem}

-- The rows that the loop keeps are rows of the list, with the identifiers that it looks for.
abbrev pub IsPlaced : Store → ℤ → Option User → Type 0
IsPlaced s id none = Unit
IsPlaced s id (some user) = Mem user s.users × (user.id ≡ id)

pub place_users-IsPlaced :
    (s : Store) (actor_id target_id : ℤ) (actor target : Option User) (users : List User)
    {a b : Option User}
    → AreRows s users
    → IsPlaced s actor_id actor
    → IsPlaced s target_id target
    → place_users actor_id target_id actor target users ≡ ok (a, b)
    → IsPlaced s actor_id a × IsPlaced s target_id b
unfolding place_users
place_users-IsPlaced s actor_id target_id actor target [] {a} {b} rows h k e = (
  subst (IsPlaced s actor_id) {x = actor} {y = a} (ground arith) h,
  subst (IsPlaced s target_id) {x = target} {y = b} (ground arith) k,
)
place_users-IsPlaced s actor_id target_id actor target (user ∷ rest) {a} {b} rows h k e =
    elim (Bool-cases (eq_ℤ user.id actor_id)) [
      | inl own ↦
          place_users-IsPlaced s actor_id target_id (some user) target rest {a = a} {b = b} rows.1
            (rows.0, eq_ℤ_sound user.id actor_id own) k (ground (arith, own, e))
      | inr other ↦ elim (Bool-cases (eq_ℤ user.id target_id)) [
        | inl own ↦
            place_users-IsPlaced s actor_id target_id actor (some user) rest {a = a} {b = b} rows.1
              h (rows.0, eq_ℤ_sound user.id target_id own) (ground (arith, own, other, e))
        | inr none_of ↦ absurd (ground (arith, other, none_of, e))
      ]
    ]

module _ (env : Environment) (rules : TextRules) where
  lock_administrative_sessions-state :
      (input : ChangeUserStatusInput) (target : Option User) (s : Store)
      → (lock_administrative_sessions env rules input target s).1 ≡ s
  unfolding lock_administrative_sessions
  lock_administrative_sessions-state input target s =
      elim (Bool-cases (status_eq input.new_status banned && not (is_banning_no_op target))) [
        | inl e ↦
            ground (
              arith,
              e,
              lock_sessions-state env (ban_locks input.actor_session_id input.target_id) s,
            )
        | inr e ↦ ground (arith, e, lock_session-state env input.actor_session_id s)
      ]

  -- For a ban that changes something, the sessions are all that are open for the target.
  pub lock_administrative_sessions-Covers :
      (input : ChangeUserStatusInput) (target : Option User) (s : Store) {found : UserSession}
      {sessions : List UserSession} {s' : Store}
      → eq_ℤ input.actor_id input.target_id ≡ false
      → lock_administrative_sessions env rules input target s ≡ (ok (found, sessions), s')
      → status_eq input.new_status banned ≡ true
      → is_banning_no_op target ≡ false
      → Covers input.target_id (ids_of sessions) s.sessions
  unfolding lock_administrative_sessions
  lock_administrative_sessions-Covers input target s {found} {sessions} {s'} apart h ban change =
      let locks = ban_locks input.actor_session_id input.target_id in
      elim (Result-cases (lock_sessions env locks s).0) [
        | inl (rows, e) ↦
            ban_locks-Covers env input.actor_id input.actor_session_id input.target_id s
              {rows = rows} {s' = (lock_sessions env locks s).1} {found = found}
              {targets = sessions} apart (ground (arith, e)) (ground (arith, e, h, ban, change))
        | inr (x, e) ↦ absurd (ground (arith, e, h, ban, change))
      ]

  -- The session of the actor is a row of the database.
  pub lock_administrative_sessions-Mem :
      (input : ChangeUserStatusInput) (target : Option User) (s : Store) {found : UserSession}
      {sessions : List UserSession} {s' : Store}
      → lock_administrative_sessions env rules input target s ≡ (ok (found, sessions), s')
      → Mem found s.sessions
  unfolding lock_administrative_sessions
  lock_administrative_sessions-Mem input target s {found} {sessions} {s'} h =
      elim (Bool-cases (status_eq input.new_status banned && not (is_banning_no_op target))) [
        | inl ban ↦
            let locks = ban_locks input.actor_session_id input.target_id in
            elim (Result-cases (lock_sessions env locks s).0) [
              | inl (rows, e) ↦
                  sorted_out-Mem input.actor_id input.actor_session_id input.target_id s.sessions
                    rows {found = found} {targets = sessions}
                    (lock_sessions-ok env locks s {rows = rows} {s' = (lock_sessions env locks s).1}
                      (ground (arith, e))).1
                    (ground (arith, e, h, ban))
              | inr (x, e) ↦ absurd (ground (arith, e, h, ban))
            ]
        | inr other ↦ elim (Result-cases (lock_session env input.actor_session_id s).0) [
          | inl (row, e) ↦
              let same : row ≡ found = ground (arith, e, h, other) in
              subst (λ r. Mem r s.sessions) same
                (lock_session-ok env input.actor_session_id s {row = row}
                  {s' = (lock_session env input.actor_session_id s).1} (ground (arith, e))).1
          | inr (x, e) ↦ absurd (ground (arith, e, h, other))
        ]
      ]

  check_administrative_session-state :
      (input : ChangeUserStatusInput) (muted_until : Option Time) (session : UserSession) (t : Time)
      (s : Store)
      → (check_administrative_session env rules input muted_until session t s).1 ≡ s
  unfolding check_administrative_session
  check_administrative_session-state input muted_until session t s = grind steps

  pub check_administrative_session-ok :
      (input : ChangeUserStatusInput) (muted_until : Option Time) (session : UserSession) (t : Time)
      (s : Store) {s' : Store}
      → check_administrative_session env rules input muted_until session t s ≡ (ok tt, s')
      → (session.id ≡ input.actor_session_id)
        × (session.user_id ≡ input.actor_id)
        × (session.revoked_at ≡ none)
        × (is_after (normalize_time session.expires_at) t ≡ true)
  unfolding check_administrative_session is_nil
      content_platform.Service.Checks.valid_authentication_session_structure
      content_platform.Service.Checks.authentication_session
  check_administrative_session-ok input muted_until session t s h = ground (
    arith,
    eq_ℤ_sound session.id input.actor_session_id,
    eq_ℤ_sound session.user_id input.actor_id,
  )

  pub validate_status_actor-ok :
      (actor : User)
      → validate_status_actor actor ≡ none
      → (actor.role ≡ role_admin) × (actor.deleted_at ≡ none)
  unfolding validate_status_actor role_eq is_nil
  validate_status_actor-ok actor h = ground arith

  -- The steps of the transaction of a call that succeeds.
  pub change_locked-ok :
      (input : ChangeUserStatusInput) (reason : Text) (muted_until : Option Time) (s : Store)
      {u : User} {s' : Store}
      → change_locked env rules input reason muted_until s ≡ (ok u, s')
      → let t = normalize_time env.clock_now in
        (users : List User) × (actor : User) × (target : User) × (session : UserSession)
        × (sessions : List UserSession) × (acting : User) × (audit : Option AuditEntry)
        × ((lock_users env (input.actor_id ∷ input.target_id ∷ []) s).0 ≡ ok users)
        × (place_users input.actor_id input.target_id none none users
            ≡ ok (some actor, some target))
        × ((lock_administrative_sessions env rules input (some target) s).0
            ≡ ok (session, sessions))
        × (check_administrative_session env rules input muted_until session t s ≡ (ok tt, s))
        × ((recover_if_expired env rules actor t input.request_id s).0 ≡ ok (acting, audit))
        × (validate_status_actor acting ≡ none)
        × (change_target env rules input reason muted_until target sessions audit t
              (recover_if_expired env rules actor t input.request_id s).1
            ≡ (ok u, s'))
  unfolding change_locked required_user content_platform.Service.now
      content_platform.Service.fail_with
  change_locked-ok input reason muted_until s {u} {s'} h =
      let t = normalize_time env.clock_now in
      let ids = input.actor_id ∷ input.target_id ∷ [] in
      elim (Result-cases (lock_users env ids s).0) [
        | inr (x, e) ↦ absurd (ground arith)
        | inl (users, e) ↦
            elim (Result-cases (place_users input.actor_id input.target_id none none users)) [
              | inr (x, f) ↦ absurd (grind (steps, lock_users-state))
              | inl ((none, b), f) ↦ absurd (grind (steps, lock_users-state))
              | inl ((some actor, none), f) ↦ absurd (grind (steps, lock_users-state))
              | inl ((some actor, some target), f) ↦
                  elim (Result-cases
                    (lock_administrative_sessions env rules input (some target) s).0) [
                      | inr (x, g) ↦ absurd (grind (steps, lock_users-state))
                      | inl ((session, sessions), g) ↦
                          elim (Result-cases
                            (recover_if_expired env rules actor t input.request_id s).0) [
                              | inr (x, k) ↦ absurd (
                                  grind (
                                    steps, lock_users-state, lock_administrative_sessions-state,
                                    check_administrative_session-state,
                                  ))
                              | inl ((acting, audit), k) ↦ (
                                users,
                                actor,
                                target,
                                session,
                                sessions,
                                acting,
                                audit,
                                e,
                                f,
                                g,
                                grind (
                                  steps, lock_users-state, lock_administrative_sessions-state,
                                  check_administrative_session-state,
                                ),
                                k,
                                grind (
                                  steps, lock_users-state, lock_administrative_sessions-state,
                                  check_administrative_session-state,
                                ),
                                grind (
                                  steps, lock_users-state, lock_administrative_sessions-state,
                                  check_administrative_session-state,
                                ),
                              )
                            ]
                    ]
            ]
      ]
