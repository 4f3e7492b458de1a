-- ===== src/Service/StatusChange/Apply.antt =====
-- What ChangeUserStatus writes once every test has passed.
use content_platform.Prelude.{
  ℤ, Text, true, false, Option, List, [], ◌∷◌, ◌++◌, ◌≡◌, refl, arith, update_where, sort_by,
  any_where, eq_ℤ_sound, if◌then◌else◌,
}
use mathlib.Core.List.{append-nil, append_assoc}
use content_platform.GoTime.{Time}
use content_platform.Domain.{User, UserSession, Status, status_eq, banned}
use content_platform.Domain.Validation.{TextRules}
use content_platform.Errors.{ok}
use content_platform.Ports.{AuditEntry}
use content_platform.Database.{Store, Environment, has_id}
use content_platform.Repository.{sorted_unique_ids}
use content_platform.Repository.Atomic.{is_ok}
use content_platform.Repository.Audit.{insert_audit}
use content_platform.Repository.Users.{apply_mutation}
use content_platform.Repository.Revocation.{
  Covers, Covers-sorted, ids_of, is_open_of, all_revoked, all_revoked-none_open, none_open,
  revoke_locked_sessions-state,
}
use content_platform.Service.Deletion.Sound.{update_user-state}
use content_platform.Service.StatusChange.{
  ChangeUserStatusInput, valid_status_mutation_result, status_mutation, status_audit, audit_before,
  present,
}
use content_platform.Service.StatusChange.Run.{
  session_ids, insert_each, insert_pending_status_audits, revoke_target_sessions, apply_status,
}

-- The sessions once those of a banned target are revoked.
unfoldable pub revoked_sessions :
    ChangeUserStatusInput → List UserSession → Time → List UserSession → List UserSession
unfolding ids_of
revoked_sessions input [] t rows = rows
revoked_sessions input (s ∷ rest) t rows =
    if status_eq input.new_status banned
    then all_revoked t (sorted_unique_ids (ids_of (s ∷ rest))) rows
    else rows

-- A ban leaves the target no open session, if `sessions` are all that were open.
pub revoked_sessions-none_open :
    (input : ChangeUserStatusInput) (target_id : ℤ) (sessions : List UserSession) (t : Time)
    (rows : List UserSession)
    → status_eq input.new_status banned ≡ true
    → Covers target_id (ids_of sessions) rows
    → any_where (is_open_of target_id) (revoked_sessions input sessions t rows) ≡ false
unfolding revoked_sessions ids_of
revoked_sessions-none_open input target_id [] t rows h covers = none_open target_id rows covers
revoked_sessions-none_open input target_id (s ∷ rest) t rows h covers =
    let ids = ids_of (s ∷ rest) in
    rw h (
      all_revoked-none_open target_id t (sorted_unique_ids ids) rows
        (Covers-sorted target_id ids rows covers))

module _ (env : Environment) where
  insert_audit-state :
      (audit : AuditEntry) (s : Store)
      → let (r, s') = insert_audit env audit s in
        is_ok r ≡ true → s' ≡ record s { audits = s.audits ++ audit ∷ [] }
  unfolding insert_audit
  insert_audit-state audit s h = ground arith

module _ (env : Environment) (rules : TextRules) where
  insert_each-state :
      (audits : List AuditEntry) (s : Store)
      → let (r, s') = insert_each env rules audits s in
        is_ok r ≡ true → s' ≡ record s { audits = s.audits ++ audits }
  unfolding insert_each
  insert_each-state [] s h = rw (append-nil s.audits) refl
  insert_each-state (audit ∷ rest) s h =
      grind
        (arith, insert_audit-state, insert_each-state rest, append_assoc s.audits (audit ∷ []) rest)

  pub insert_pending_status_audits-state :
      (audits : List (Option AuditEntry)) (s : Store)
      → let (r, s') = insert_pending_status_audits env rules audits s in
        is_ok r ≡ true
        → s' ≡ record s { audits = s.audits ++ sort_by audit_before (present audits) }
  unfolding insert_pending_status_audits
  insert_pending_status_audits-state audits s h =
      insert_each-state (sort_by audit_before (present audits)) s h

  revoke_target_sessions-state :
      (input : ChangeUserStatusInput) (sessions : List UserSession) (t : Time) (s : Store)
      → let (r, s') = revoke_target_sessions env rules input sessions t s in
        is_ok r ≡ true → s' ≡ record s { sessions = revoked_sessions input sessions t s.sessions }
  unfolding revoke_target_sessions revoked_sessions session_ids ids_of
  revoke_target_sessions-state input [] t s h = refl
  revoke_target_sessions-state input (row ∷ rest) t s h =
      grind (arith, revoke_locked_sessions-state)

  valid_status-fields :
      (updated previous : User) (status : Status) (muted_until : Option Time) (t : Time)
      → valid_status_mutation_result rules updated previous status muted_until t ≡ true
      → (status_eq updated.status status ≡ true) × (updated.id ≡ previous.id)
  unfolding valid_status_mutation_result
      content_platform.Service.Checks.valid_profile_user_structure
      content_platform.Service.Checks.valid_profile_user_fields
  valid_status-fields updated previous status muted_until t h =
      ground (arith, eq_ℤ_sound updated.id previous.id)

  pub apply_status-ok :
      (input : ChangeUserStatusInput) (reason : Text) (muted_until : Option Time) (previous : User)
      (sessions : List UserSession) (actor_audit audit : Option AuditEntry) (t : Time) (s : Store)
      {u : User} {s' : Store}
      → apply_status env rules input reason muted_until previous sessions actor_audit audit t s
        ≡ (ok u, s')
      → (status_eq u.status input.new_status ≡ true)
        × (u.id ≡ previous.id)
        × (s' ≡ record {
          users =
              update_where
                (has_id previous.id)
                (apply_mutation (status_mutation previous.id input.new_status muted_until t))
                s.users;
          sessions = revoked_sessions input sessions t s.sessions;
          audits =
              (s.audits ++ sort_by audit_before (present (actor_audit ∷ audit ∷ [])))
              ++ status_audit input reason previous u t ∷ [];
        })
  unfolding apply_status content_platform.Service.Checks.secret_free_user status_mutation
      status_audit
  apply_status-ok input reason muted_until previous sessions actor_audit audit t s {u} h = (
    grind (arith, valid_status-fields),
    grind (arith, valid_status-fields),
    grind (
      arith, update_user-state, revoke_target_sessions-state, insert_pending_status_audits-state,
      insert_audit-state,
    ),
  )
