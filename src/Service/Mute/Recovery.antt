-- ===== src/Service/Mute/Recovery.antt =====
-- What recoverExpiredMuteForAuth leaves behind: the database that it should, and nothing else.
use mathlib.Core.List.{append-nil, mem-cons_self, mem-cons_of_mem}
use content_platform.Prelude.{
  ◌⊎◌, inl, inr, Mem, ℤ, Bool, Bool-cases, Option-cases, find_where, subst, Text, ◌≡◌, refl, true,
  false, ◌&&◌, ◌++◌, Option, none, some, List, [], ◌∷◌, arith, eq_ℤ_sound, text_eq_sound,
  update_where, if◌then◌else◌,
}
use content_platform.GoTime.{Time}
use content_platform.Domain.{User, status_eq, muted, active}
use content_platform.Errors.{Result, ok, err}
use content_platform.Repository.Atomic.{is_ok}
use content_platform.Ports.{AuditEntry}
use content_platform.Database.{Store, Environment, has_id}
use content_platform.Repository.Users.{has_expired_mute, clear_mute, recover_expired_mute}
use content_platform.Service.Checks.{should_recover_expired_mute}
use content_platform.Service.Mute.{mute_audit, recover_expired_mute_for_auth, insert_pending}

-- The users when the mute of `user` is lifted if it has run out.
unfoldable pub recovered_users : User → Time → List User → List User
recovered_users user t users =
    if should_recover_expired_mute user t
    then update_where (λ row. has_id user.id row && has_expired_mute t row) (clear_mute t) users
    else users

abbrev pub entries : Option AuditEntry → List AuditEntry
entries none = []
entries (some audit) = audit ∷ []

unfoldable pub expiry_entries : User → Option Time → Time → Text → List AuditEntry
expiry_entries user none t request_id = []
expiry_entries user (some until) t request_id = mute_audit user.id until t request_id ∷ []

-- The audit entries that go with it.
unfoldable pub recovered_audits : User → Time → Text → List AuditEntry
unfolding expiry_entries
recovered_audits user t request_id =
    if should_recover_expired_mute user t
    then expiry_entries user user.muted_until t request_id
    else []

-- The user that the operation goes on with is the one that it had, and its mute has not run out.
abbrev pub Continues : User → Time → Text → Result (User × Option AuditEntry) → Type 0
Continues user t request_id (err e) = Unit
Continues user t request_id (ok (u, pending)) =
    (u.id ≡ user.id)
    × (u.password_hash ≡ user.password_hash)
    × (entries pending ≡ recovered_audits user t request_id)
    × (should_recover_expired_mute u t ≡ false)

-- Where the user comes from that the operation goes on with: it is the one that it had, or a muted row
-- of the database with its identifier, from which the mute is lifted at `t`.
abbrev pub IsRecovered : User → Time → List User → User → Type 0
IsRecovered user t users u =
    ((should_recover_expired_mute user t ≡ false) × (u ≡ user))
    ⊎ ((row : User) × Mem row users
        × (row.id ≡ user.id)
        × (status_eq row.status muted ≡ true)
        × (u ≡ record row { status = active; muted_until = none; updated_at = t }))

found_where :
    (p : User → Bool) (users : List User) {row : User}
    → find_where p users ≡ some row
    → Mem row users × (p row ≡ true)
unfolding find_where
found_where p [] h = absurd (cc)
found_where p (user ∷ rest) {row} h = elim (Bool-cases (p user)) [
  | inl e ↦
      let same : user ≡ row = ground (arith, e, h) in
      (subst (λ u. Mem u (user ∷ rest)) same mem-cons_self, subst (λ u. p u ≡ true) same e)
  | inr e ↦
      let (stored, holds) = found_where p rest {row = row} (ground (arith, e, h)) in
      (mem-cons_of_mem user stored, holds)
]

expired_row :
    (id : ℤ) (t : Time) (row : User)
    → has_id id row && has_expired_mute t row ≡ true
    → (row.id ≡ id) × (status_eq row.status muted ≡ true)
unfolding has_id has_expired_mute
expired_row id t row h = (ground (arith, eq_ℤ_sound row.id id), ground arith)

module _ (env : Environment) where
  pub recovery-IsRecovered :
      (user : User) (t : Time) (request_id : Text) (s : Store) {u : User}
      {pending : Option AuditEntry} {s' : Store}
      → recover_expired_mute_for_auth env user t request_id s ≡ (ok (u, pending), s')
      → IsRecovered user t s.users u
  unfolding recover_expired_mute_for_auth should_recover_expired_mute recover_expired_mute
      clear_mute
  recovery-IsRecovered user t request_id s {u} h =
      let hit = λ (row : User). has_id user.id row && has_expired_mute t row in
      elim (Bool-cases (should_recover_expired_mute user t)) [
        | inr e ↦ inl (e, ground (arith, e, h))
        | inl e ↦ elim (Option-cases (find_where hit s.users)) [
          | inl f ↦ absurd (ground (arith, e, f, h))
          | inr (row, f) ↦
              let (stored, holds) = found_where hit s.users {row = row} f in
              let (same, was_muted) = expired_row user.id t row holds in
              inr (row, stored, same, was_muted, ground (arith, e, f, h))
        ]
      ]

  pub insert_pending-state :
      (pending : Option AuditEntry) (s : Store)
      → let (r, s') = insert_pending env pending s in
        is_ok r ≡ true → s' ≡ record s { audits = s.audits ++ entries pending }
  unfolding insert_pending content_platform.Repository.Audit.insert_audit
  insert_pending-state none s h = rw (append-nil s.audits) (ground arith)
  insert_pending-state (some audit) s h = ground arith

  pub recovery-state :
      (user : User) (t : Time) (request_id : Text) (s : Store)
      → let (r, s') = recover_expired_mute_for_auth env user t request_id s in
        is_ok r ≡ true → s' ≡ record s { users = recovered_users user t s.users }
  unfolding recover_expired_mute_for_auth recovered_users should_recover_expired_mute
      recover_expired_mute
  recovery-state user t request_id s h = ground arith

  recovery-ok :
      (user : User) (t : Time) (request_id : Text) (s : Store) {u : User}
      {pending : Option AuditEntry} {s' : Store}
      → recover_expired_mute_for_auth env user t request_id s ≡ (ok (u, pending), s')
      → Continues user t request_id (ok (u, pending))
  unfolding recover_expired_mute_for_auth recovered_audits should_recover_expired_mute
      recover_expired_mute
  recovery-ok user t request_id s {u} h =
      ground (arith, eq_ℤ_sound u.id user.id, text_eq_sound u.password_hash user.password_hash)

  pub recovery-Continues :
      (user : User) (t : Time) (request_id : Text) (s : Store)
      → Continues user t request_id (recover_expired_mute_for_auth env user t request_id s).0
  recovery-Continues user t request_id s = go _ refl
    where
      go :
          (r : Result (User × Option AuditEntry))
          → (recover_expired_mute_for_auth env user t request_id s).0 ≡ r
          → Continues user t request_id r
      go (err e) h = tt
      go (ok (u, pending)) h =
          recovery-ok user t request_id s
            {s' = (recover_expired_mute_for_auth env user t request_id s).1} (ground arith)
