-- ===== src/Repository.antt =====
-- infra/postgres/identity/repository.go: errors, transactions and identifier lists. A transaction
-- takes effect at one point: its locks keep the rows that it reads, so what other transactions
-- commit is seen before it starts. A rollback gives the database back as the transaction found it.
pub mod Identifiers
pub mod Users
pub mod Sessions
pub mod Audit
pub mod Atomic
pub mod Locking
pub mod Revocation
use content_platform.Prelude.{
  ℤ, Bool, true, false, Option, none, some, List, [], ◌∷◌, eq_ℤ, ltb_ℤ, sort_by, insert_by,
  any_where, if◌then◌else◌,
}
use content_platform.Errors.{
  ContextErr, canceled, deadline_exceeded, Error, repository_internal, not_found,
  internal_context_marker, Result, ok, err,
}
use content_platform.Database.{
  Store, Environment, Statement, begin_transaction, commit_transaction, rollback_transaction,
  at_failure, committed, commit_failed, before_statement, before_transaction,
}
use content_platform.Database.Monad.{Action}

-- errors.Is finds a cause of either error; context.Canceled is looked for first.
unfoldable pub join_marker : Option ContextErr → Option ContextErr → Option ContextErr
join_marker (some canceled) c = some canceled
join_marker (some deadline_exceeded) (some canceled) = some canceled
join_marker (some deadline_exceeded) _ = some deadline_exceeded
join_marker none c = c

-- `sortedUniqueIDs` drops an entry that equals the one before it.
unfoldable pub drop_repeats : List ℤ → List ℤ
drop_repeats [] = []
drop_repeats (x ∷ []) = x ∷ []
drop_repeats (x ∷ y ∷ rest) =
    let others = drop_repeats (y ∷ rest) in if eq_ℤ x y then others else x ∷ others

unfoldable pub sorted_unique_ids : List ℤ → List ℤ
unfolding sort_by insert_by
sorted_unique_ids ids = drop_repeats (sort_by ltb_ℤ ids)

-- `column IN (ids)`
unfoldable pub contains_id : List ℤ → ℤ → Bool
contains_id ids id = any_where (λ x. eq_ℤ x id) ids

module _ (env : Environment) where
  unfoldable pub repository_context_error : Statement → Option ContextErr → Option ContextErr
  repository_context_error st cause = elim (env.ctx_err (at_failure st)) [
    | some c ↦ some c
    | none ↦ cause
  ]

  unfoldable pub repository_internal_error : Statement → Option ContextErr → Error
  unfolding repository_context_error
  repository_internal_error st cause = repository_internal (repository_context_error st cause)

  -- A statement inside a transaction.
  unfoldable pub run : {A : Type 0} → Statement → Action A → Action A
  unfolding repository_internal_error
  run st m s = elim (env.fault st) [
    | some cause ↦ (err (repository_internal_error st cause), s)
    | none ↦ m s
  ]

  -- A reading statement outside: other transactions may commit first.
  unfoldable pub autocommit : {A : Type 0} → Statement → Action A → Action A
  unfolding run
  autocommit st m s = run st m (env.others before_statement s)

  -- The commit that ends a writing statement of its own, which was carried out or not where it fails.
  unfoldable pub settle : {A : Type 0} → Statement → Store → Result A × Store → Result A × Store
  unfolding repository_internal_error
  settle st before (err e, after) = (err e, before)
  settle st before (ok a, after) = elim (env.own_commit st) [
    | committed ↦ (ok a, after)
    | commit_failed applied cause ↦
        (err (repository_internal_error st cause), if applied then after else before)
  ]

  -- A writing statement outside.
  unfoldable pub autocommit_write : {A : Type 0} → Statement → Action A → Action A
  unfolding run settle
  autocommit_write st m s =
      let before = env.others before_statement s in settle st before (run st m before)

  unfoldable pub rollback_failure_error : Error → Option ContextErr → Error
  unfolding repository_internal_error join_marker internal_context_marker
  rollback_failure_error callback_err rollback_err =
      repository_internal_error rollback_transaction
        (join_marker (internal_context_marker callback_err) rollback_err)

  -- The error of a callback, after the rollback.
  unfoldable pub roll_back : Error → Error
  unfolding rollback_failure_error
  roll_back e = elim (env.fault rollback_transaction) [
    | none ↦ e
    | some cause ↦ rollback_failure_error e cause
  ]

  unfoldable pub finish : {A : Type 0} → Store → Result A × Store → Result A × Store
  unfolding roll_back repository_internal_error
  finish before (err e, after) = (err (roll_back e), before)
  finish before (ok a, after) = elim env.commit [
    | committed ↦ (ok a, after)
    | commit_failed applied cause ↦ (
      err (repository_internal_error commit_transaction cause),
      if applied then after else before,
    )
  ]

  unfoldable pub within_tx : {A : Type 0} → Action A → Action A
  unfolding finish
  within_tx callback s = elim (env.fault begin_transaction) [
    | some cause ↦ (err (repository_internal_error begin_transaction cause), s)
    | none ↦ finish (env.others before_transaction s) (callback (env.others before_transaction s))
  ]
