-- ===== src/Repository/Atomic.antt =====
-- A transaction is all or nothing (WithinTx of repository.go).
use content_platform.Prelude.{◌≡◌, Bool, true, false, ◌⊎◌, arith}
use content_platform.Errors.{Result, ok, err, repository_internal}
use content_platform.Database.{
  Statement, Store, Environment, before_statement, before_transaction, committed, commit_failed,
}
use content_platform.Database.Monad.{Action}
use content_platform.Repository.{within_tx}

-- The commit was carried out, and yet reports an error.
abbrev pub is_commit_lost : Environment → Bool
is_commit_lost env = elim env.commit [ committed ↦ false | commit_failed applied _ ↦ applied ]

-- The same for a writing statement outside of a transaction.
abbrev pub is_write_lost : Environment → Statement → Bool
is_write_lost env st = elim (env.own_commit st) [
  | committed ↦ false
  | commit_failed applied _ ↦ applied
]

abbrev pub is_ok : {A : Type 0} → Result A → Bool
is_ok (ok a) = true
is_ok (err e) = false

abbrev pub is_repository_error : {A : Type 0} → Result A → Bool
is_repository_error (err (repository_internal _)) = true
is_repository_error _ = false

module _ (env : Environment) where
  -- A transaction leaves the database as it found it, unless it succeeds or the commit is lost.
  pub within_tx-state :
      {A : Type 0} (callback : Action A) (s : Store)
      → let (r, s') = within_tx env callback s in
        (s' ≡ s)
        ⊎ (s' ≡ env.others before_transaction s)
        ⊎ (is_commit_lost env ≡ true)
        ⊎ (is_ok r ≡ true)
  unfolding within_tx
  within_tx-state callback s = ground arith

  -- Whatever error it returns but the repository's own, a transaction has changed nothing.
  pub within_tx-refused :
      {A : Type 0} (callback : Action A) (s : Store)
      → let (r, s') = within_tx env callback s in
        (s' ≡ s)
        ⊎ (s' ≡ env.others before_transaction s)
        ⊎ (is_repository_error r ≡ true)
        ⊎ (is_ok r ≡ true)
  unfolding within_tx
  within_tx-refused callback s = ground arith

  -- A transaction that succeeds was committed, and its result and its database are those of its
  -- callback, run on the database that the transaction found.
  pub within_tx-ok :
      {A : Type 0} (callback : Action A) (s : Store) {a : A} {s' : Store}
      → within_tx env callback s ≡ (ok a, s')
      → (env.commit ≡ committed) × (callback (env.others before_transaction s) ≡ (ok a, s'))
  unfolding within_tx
  within_tx-ok callback s h = ground arith

  -- What a call leaves when it has changed nothing itself: the database as it was, or as other
  -- transactions have left it since.
  abbrev pub Untouched : Store → Store → Type 0
  Untouched s s' =
      (s' ≡ s)
      ⊎ (s' ≡ env.others before_statement s)
      ⊎ (s' ≡ env.others before_transaction s)
      ⊎ (s' ≡ env.others before_transaction (env.others before_statement s))
