-- ===== src/Service/Rows.antt =====
-- The row that an operation locks first: the four operations that lock one user begin alike.
use content_platform.Prelude.{
  ℤ, ◌≡◌, refl, none, List, [], ◌∷◌, Mem, eq_ℤ, eq_ℤ_sound, if◌then◌else◌, arith, subst,
}
use content_platform.Domain.{User}
use content_platform.Errors.{Error, ok, internal}
use content_platform.Database.{Store, Environment}
use content_platform.Database.Monad.{Action, pure, throw, map_error, ◌>>=◌}
use content_platform.Database.Monad.Laws.{>>=-ok, map_error-ok}
use content_platform.Repository.Users.{lock_users}
use content_platform.Repository.Locking.{AreRows, lock_users-ok, lock_users-state}

-- The one row that LockUsers was asked for; `missing` is the error if there is none.
unfoldable pub only_user : ℤ → Error → Error → List User → Action User
only_user id missing foreign [] = throw missing
only_user id missing foreign (user ∷ []) = if eq_ℤ user.id id then pure user else throw foreign
only_user id missing foreign (user ∷ _ ∷ _) = throw (internal none)

-- `tx.LockUsers(txCtx, []int64{id})` and the tests on what it returns; `f` maps its error.
unfoldable pub lock_user : Environment → (Error → Error) → ℤ → Error → Error → Action User
unfolding only_user
lock_user env f id missing foreign =
    map_error f (lock_users env (id ∷ [])) >>= only_user id missing foreign

only_user-ok :
    (id : ℤ) (missing foreign : Error) (users : List User) (s : Store) {user : User} {s' : Store}
    → AreRows s users
    → only_user id missing foreign users s ≡ (ok user, s')
    → (s' ≡ s) × Mem user s.users × (user.id ≡ id)
unfolding only_user
only_user-ok id missing foreign [] s rows h = absurd (cc)
only_user-ok id missing foreign (u ∷ []) s {user} rows h = (
  ground arith,
  subst (λ v. Mem v s.users) {x = u} {y = user} (ground arith) rows.0,
  ground (arith, eq_ℤ_sound u.id id),
)
only_user-ok id missing foreign (u ∷ v ∷ rest) s rows h = absurd (cc)

only_user-state :
    (id : ℤ) (missing foreign : Error) (users : List User) (s : Store)
    → (only_user id missing foreign users s).1 ≡ s
unfolding only_user
only_user-state id missing foreign [] s = refl
only_user-state id missing foreign (u ∷ []) s = ground arith
only_user-state id missing foreign (u ∷ v ∷ rest) s = refl

module _ (env : Environment) (f : Error → Error) (id : ℤ) (missing foreign : Error) where
  pub lock_user-ok :
      (s : Store) {user : User} {s' : Store}
      → lock_user env f id missing foreign s ≡ (ok user, s')
      → (s' ≡ s) × Mem user s.users × (user.id ≡ id)
  unfolding lock_user
  lock_user-ok s {user} {s'} h =
      let lock = map_error f (lock_users env (id ∷ [])) in
      let (users, t, e, g) = >>=-ok lock (only_user id missing foreign) s h in
      let (same, rows) =
        lock_users-ok env (id ∷ []) s (map_error-ok f (lock_users env (id ∷ [])) s e) in
      only_user-ok id missing foreign users s rows
        (subst (λ u. only_user id missing foreign users u ≡ (ok user, s')) same g)

  pub lock_user-state : (s : Store) → (lock_user env f id missing foreign s).1 ≡ s
  unfolding lock_user
  lock_user-state s = grind (arith, lock_users-state, only_user-state)
