-- ===== src/Service/StatusChange/Correct.antt =====
-- ChangeUserStatus as a whole: who may do it to whom, and which sessions are left.
use content_platform.Prelude.{
  ap, ◌<◌, Text, true, false, Option, none, some, List, [], ◌∷◌, ◌≡◌, refl, inl, inr, arith,
  any_where, eq_ℤ, subst, sym, ◌∙◌, Mem,
}
use content_platform.GoTime.{Time, is_after_sound}
use content_platform.Domain.{
  User, UserView, UserSession, role_user, role_admin, status_eq, banned, is_nil, normalize_time,
  normalize_optional_time, view,
}
use content_platform.Domain.Validation.{TextRules, trim_space}
use content_platform.Errors.{ok}
use content_platform.Database.{Store, Environment, before_transaction}
use content_platform.Database.Monad.Laws.{Result-cases}
use content_platform.Repository.{within_tx}
use content_platform.Repository.Atomic.{within_tx-ok}
use content_platform.Repository.Users.{lock_users}
use content_platform.Repository.Locking.{lock_users-ok}
use content_platform.Repository.Revocation.{Covers, ids_of, is_open_of}
use content_platform.Service.Steps.{steps}
use content_platform.Service.Mute.Recovery.{IsRecovered}
use content_platform.Service.StatusChange.{ChangeUserStatusInput, valid_requested_time}
use content_platform.Service.StatusChange.Run.{
  is_banning_no_op, lock_administrative_sessions, recover_if_expired, change_locked,
  change_user_status,
}
use content_platform.Service.StatusChange.Apply.{revoked_sessions, revoked_sessions-none_open}
use content_platform.Service.StatusChange.Target.{
  IsChanged, change_target-ok, recover_if_expired-state, recover_if_expired-IsRecovered,
}
use content_platform.Service.StatusChange.Locked.{
  lock_administrative_sessions-Mem, place_users-IsPlaced, lock_administrative_sessions-Covers,
  check_administrative_session-ok, validate_status_actor-ok, change_locked-ok,
}

-- A change of status by an administrator found in `before`, of a user found there, that leaves
-- `after`. The administrator is a row of the database, and so is the session.
pub record IsModerated (env : Environment) (input : ChangeUserStatusInput) (before : Store)
    (u : User) (after : Store) : Type 0 where
  pub actor : User
  pub session : UserSession
  pub target : User
  pub actor_stored : Mem actor before.users
  pub actor_identified : actor.id ≡ input.actor_id
  pub admin : actor.role ≡ role_admin
  pub actor_undeleted : actor.deleted_at ≡ none
  pub session_stored : Mem session before.sessions
  pub session_identified : session.id ≡ input.actor_session_id
  pub session_owned : session.user_id ≡ input.actor_id
  pub session_unrevoked : session.revoked_at ≡ none
  pub session_unexpired : normalize_time env.clock_now < normalize_time session.expires_at
  pub target_stored : Mem target before.users
  pub target_identified : target.id ≡ input.target_id
  pub target_undeleted : target.deleted_at ≡ none
  pub target_role : target.role ≡ role_user
  pub same_target : u.id ≡ target.id
  pub changed : status_eq u.status input.new_status ≡ true
  pub closed :
      status_eq input.new_status banned ≡ true
      → is_banning_no_op (some target) ≡ false
      → any_where (is_open_of input.target_id) after.sessions ≡ false
  pub kept : status_eq input.new_status banned ≡ false → after.sessions ≡ before.sessions

kept_sessions :
    (input : ChangeUserStatusInput) (sessions : List UserSession) (t : Time)
    (rows : List UserSession)
    → status_eq input.new_status banned ≡ false
    → revoked_sessions input sessions t rows ≡ rows
unfolding revoked_sessions
kept_sessions input [] t rows h = refl
kept_sessions input (s ∷ rest) t rows h = ground (arith, h)

closed_sessions :
    (input : ChangeUserStatusInput) (found u : User) (sessions : List UserSession) (t : Time)
    (before after : List UserSession)
    → IsChanged input found sessions t before u after
    → Covers input.target_id (ids_of sessions) before
    → status_eq input.new_status banned ≡ true
    → is_banning_no_op (some found) ≡ false
    → any_where (is_open_of input.target_id) after ≡ false
closed_sessions input found u sessions t before after changed covers ban change = elim changed.4 [
  | inl e ↦
      subst (λ rows. any_where (is_open_of input.target_id) rows ≡ false) (sym e)
        (revoked_sessions-none_open input input.target_id sessions t before ban covers)
  | inr (e, no_op) ↦ absurd (ground (arith, no_op ban, change))
]

-- The user that acts has the role and the deletion of a row with the identifier of the one found.
acting_row :
    (actor acting : User) (t : Time) (users : List User)
    → Mem actor users
    → IsRecovered actor t users acting
    → (row : User) × Mem row users
      × (row.id ≡ actor.id)
      × (acting.role ≡ row.role)
      × (acting.deleted_at ≡ row.deleted_at)
acting_row actor acting t users stored (inl (_, same)) =
    (actor, stored, refl, ap (λ (u : User). u.role) same, ap (λ (u : User). u.deleted_at) same)
acting_row actor acting t users stored (inr (row, row_stored, identified, _, same)) = (
  row,
  row_stored,
  identified,
  ap (λ (u : User). u.role) same,
  ap (λ (u : User). u.deleted_at) same,
)

module _ (env : Environment) (rules : TextRules) where
  change_locked-IsModerated :
      (input : ChangeUserStatusInput) (reason : Text) (muted_until : Option Time) (s : Store)
      {u : User} {s' : Store}
      → eq_ℤ input.actor_id input.target_id ≡ false
      → (status_eq input.new_status banned ≡ true → muted_until ≡ none)
      → change_locked env rules input reason muted_until s ≡ (ok u, s')
      → IsModerated env input s u s'
  change_locked-IsModerated input reason muted_until s {u} {s'} apart none_set h =
      let t = normalize_time env.clock_now in
      let ids = input.actor_id ∷ input.target_id ∷ [] in
      let (
        users, actor, target, session, sessions, acting, audit, e, f, g, checked, k, admin, final,
      ) =
        change_locked-ok env rules input reason muted_until s h in
      let (_, rows) =
        lock_users-ok env ids s {users = users} {s' = (lock_users env ids s).1}
          (ground (arith, e)) in
      let (a, b) =
        place_users-IsPlaced s input.actor_id input.target_id none none users rows tt tt f in
      let recovery = recover_if_expired env rules actor t input.request_id s in
      let (unmoved, _) =
        recover_if_expired-state env rules actor t input.request_id s (ground (arith, k)) in
      let (identified, owned, unrevoked, later) =
        check_administrative_session-ok env rules input muted_until session t s checked in
      let (role, live) = validate_status_actor-ok env rules acting admin in
      let changed =
        subst (λ before. IsChanged input target sessions t before u s'.sessions) unmoved
          (change_target-ok env rules input reason muted_until target sessions audit t recovery.1
            none_set final) in
      let session_stored =
        lock_administrative_sessions-Mem env rules input (some target) s {found = session}
          {sessions = sessions}
          {s' = (lock_administrative_sessions env rules input (some target) s).1}
          (ground (arith, g)) in
      let (holder, holder_stored, holder_same, holder_role, holder_live) =
        acting_row actor acting t s.users a.0 (
          recover_if_expired-IsRecovered env rules actor t input.request_id s {u = acting}
            {pending = audit} {s' = recovery.1} (ground (arith, k))) in
      record {
        actor = holder;
        session = session;
        target = target;
        actor_stored = holder_stored;
        actor_identified = holder_same ∙ a.1;
        admin = sym holder_role ∙ role;
        actor_undeleted = sym holder_live ∙ live;
        session_stored = session_stored;
        session_identified = identified;
        session_owned = owned;
        session_unrevoked = unrevoked;
        session_unexpired = is_after_sound (normalize_time session.expires_at) t later;
        target_stored = b.0;
        target_identified = b.1;
        target_undeleted = changed.0;
        target_role = changed.1;
        same_target = changed.2;
        changed = changed.3;
        closed = λ ban change.
            closed_sessions input target u sessions t s.sessions s'.sessions changed
              (lock_administrative_sessions-Covers env rules input (some target) s {found = session}
                {sessions = sessions}
                {s' = (lock_administrative_sessions env rules input (some target) s).1} apart
                (ground (arith, g)) ban change)
              ban change;
        kept = λ other. elim changed.4 [
          | inl e ↦ e ∙ kept_sessions input sessions t s.sessions other
          | inr (e, _) ↦ e
        ];
      }

  -- The transaction of a call that succeeds.
  status_transaction :
      (input : ChangeUserStatusInput) (s : Store) {result : UserView} {s' : Store}
      → change_user_status env rules input s ≡ (ok result, s')
      → let muted_until = normalize_optional_time input.muted_until in
        (u : User) × (result ≡ view u)
        × (eq_ℤ input.actor_id input.target_id ≡ false)
        × (status_eq input.new_status banned ≡ true → muted_until ≡ none)
        × (within_tx env (change_locked env rules input (trim_space input.reason) muted_until) s
            ≡ (ok u, s'))
  unfolding change_user_status normalize_optional_time valid_requested_time status_eq is_nil
  status_transaction input s h =
      let muted_until = normalize_optional_time input.muted_until in
      let callback = change_locked env rules input (trim_space input.reason) muted_until in
      elim (Result-cases (within_tx env callback s).0) [
        | inl (u, e) ↦ (u, grind steps, grind steps, (λ ban. grind (steps, ban)), grind steps)
        | inr (x, e) ↦ absurd (grind steps)
      ]

  -- A successful ChangeUserStatus found an administrator who is not deleted, with an open and
  -- unexpired session of their own, and another user, who is not deleted and has the role of a
  -- user. The user that it returns is that one, with the status of the call. After a ban of a user
  -- who was not banned, no session of the user is open; after any other status, the sessions are
  -- what they were.
  pub change_user_status_sound :
      (input : ChangeUserStatusInput) (s : Store) {result : UserView} {s' : Store}
      → change_user_status env rules input s ≡ (ok result, s')
      → (u : User) × (result ≡ view u)
        × (eq_ℤ input.actor_id input.target_id ≡ false)
        × IsModerated env input (env.others before_transaction s) u s'
  change_user_status_sound input s h =
      let muted_until = normalize_optional_time input.muted_until in
      let reason = trim_space input.reason in
      let callback = change_locked env rules input reason muted_until in
      let (u, shown, apart, none_set, e) = status_transaction input s h in
      (
        u,
        shown,
        apart,
        change_locked-IsModerated input reason muted_until (env.others before_transaction s) apart
            none_set (within_tx-ok env callback s e).1,
      )
