-- ===== src/Service/Mute/AfterRead.antt =====
-- What recoverExpiredMuteAfterRead leaves behind, for the two operations that only read otherwise.
use mathlib.Core.List.{append-nil}
use content_platform.Prelude.{ℤ, Text, ◌≡◌, ◌++◌, [], true, none, inl, inr, arith, Mem, subst}
use content_platform.GoTime.{Time}
use content_platform.Domain.{User}
use content_platform.Domain.Validation.{TextRules}
use content_platform.Errors.{ok, new_internal_error, not_found, internal}
use content_platform.Database.{Store, Environment, before_transaction}
use content_platform.Database.Monad.Laws.{>>=-ok, Result-cases}
use content_platform.Repository.{within_tx}
use content_platform.Repository.Atomic.{within_tx-ok}
use content_platform.Service.Checks.{should_recover_expired_mute, secret_free_user}
use content_platform.Service.Rows.{lock_user, lock_user-ok}
use content_platform.Service.Mute.{
  recover_expired_mute_for_auth, recover_user, recover_locked, recover_expired_mute_after_read,
}
use content_platform.Service.Mute.Recovery.{
  IsRecovered, recovery-IsRecovered, recovered_users, recovered_audits, recovery-state,
  recovery-Continues,
}

-- A mute that has run out is lifted: that of a row with this identifier, if `before` has one. The user
-- `u` that is returned is the row as it is then, without its password hash.
pub record IsLifted (id : ℤ) (t : Time) (request_id : Text) (before : Store) (u : User)
    (after : Store) : Type 0 where
  pub current : User
  pub stored : Mem current before.users
  pub identified : current.id ≡ id
  pub recovered : User
  pub recovery : IsRecovered current t before.users recovered
  pub returned : u ≡ record recovered { password_hash = [] }
  pub lifted : after ≡ record {
    users = recovered_users current t before.users;
    sessions = before.sessions;
    audits = before.audits ++ recovered_audits current t request_id;
  }

module _ (env : Environment) (rules : TextRules) where
  recover_user-ok :
      (observed : User) (t : Time) (request_id : Text) (current : User) (s : Store) {u : User}
      {s' : Store}
      → recover_user env rules observed t request_id current s ≡ (ok u, s')
      → s' ≡ record {
        users = recovered_users current t s.users;
        sessions = s.sessions;
        audits = s.audits ++ recovered_audits current t request_id;
      }
  unfolding recover_user content_platform.Repository.Audit.insert_audit
  recover_user-ok observed t request_id current s h =
      grind (arith, recovery-state, recovery-Continues, append-nil s.audits)

  recover_user-IsRecovered :
      (observed : User) (t : Time) (request_id : Text) (current : User) (s : Store) {u : User}
      {s' : Store}
      → recover_user env rules observed t request_id current s ≡ (ok u, s')
      → (recovered : User) × IsRecovered current t s.users recovered
        × (u ≡ record recovered { password_hash = [] })
  unfolding recover_user secret_free_user
  recover_user-IsRecovered observed t request_id current s {u} h =
      elim (Result-cases (recover_expired_mute_for_auth env current t request_id s).0) [
        | inl ((recovered, pending), e) ↦ (
          recovered,
          recovery-IsRecovered env current t request_id s {u = recovered} {pending = pending}
              {s' = (recover_expired_mute_for_auth env current t request_id s).1}
              (ground (arith, e)),
          ground (arith, e, h),
        )
        | inr (x, e) ↦ absurd (ground (arith, e, h))
      ]

  recover_locked-ok :
      (observed : User) (t : Time) (request_id : Text) (s : Store) {u : User} {s' : Store}
      → recover_locked env rules observed t request_id s ≡ (ok u, s')
      → IsLifted observed.id t request_id s u s'
  unfolding recover_locked
  recover_locked-ok observed t request_id s {u} {s'} h =
      let lock = lock_user env new_internal_error observed.id not_found (internal none) in
      let k = recover_user env rules observed t request_id in
      let (current, v, e, f) = >>=-ok lock k s h in
      let (same, stored, identified) =
        lock_user-ok env new_internal_error observed.id not_found (internal none) s e in
      let run : k current s ≡ (ok u, s') = subst (λ w. k current w ≡ (ok u, s')) same f in
      let (recovered, recovery, returned) =
        recover_user-IsRecovered observed t request_id current s run in
      record {
        current = current;
        stored = stored;
        identified = identified;
        recovered = recovered;
        recovery = recovery;
        returned = returned;
        lifted = recover_user-ok observed t request_id current s run;
      }

  recover_transaction :
      (observed : User) (t : Time) (request_id : Text) (s : Store) {u : User} {s' : Store}
      → recover_expired_mute_after_read env rules observed t request_id s ≡ (ok u, s')
      → should_recover_expired_mute observed t ≡ true
      → within_tx env (recover_locked env rules observed t request_id) s ≡ (ok u, s')
  unfolding recover_expired_mute_after_read
  recover_transaction observed t request_id s {u} h e =
      elim (Result-cases (within_tx env (recover_locked env rules observed t request_id) s).0) [
        | inl (v, f) ↦ ground (arith, e, f, h)
        | inr (x, f) ↦ absurd (ground (arith, e, f, h))
      ]

  pub recover_expired_mute_after_read-ok :
      (observed : User) (t : Time) (request_id : Text) (s : Store) {u : User} {s' : Store}
      → recover_expired_mute_after_read env rules observed t request_id s ≡ (ok u, s')
      → should_recover_expired_mute observed t ≡ true
      → IsLifted observed.id t request_id (env.others before_transaction s) u s'
  recover_expired_mute_after_read-ok observed t request_id s h e =
      let callback = recover_locked env rules observed t request_id in
      recover_locked-ok observed t request_id (env.others before_transaction s)
        (within_tx-ok env callback s (recover_transaction observed t request_id s h e)).1
