-- ===== src/Database/Monad.antt =====
-- A call of the service or of the repository: a value or an error, and the database after it.
pub mod Laws
use content_platform.Prelude.{Bool, if◌then◌else◌}
use content_platform.Errors.{Error, Result, ok, err}
use content_platform.Database.{Store}

abbrev pub Action : Type 0 → Type 0
Action A = Store → Result A × Store

module _ {A : Type 0} where
  abbrev pub pure : A → Action A
  pure a s = (ok a, s)

  abbrev pub throw : Error → Action A
  throw e s = (err e, s)

  abbrev pub lift : Result A → Action A
  lift r s = (r, s)

  -- The error becomes a value, for the caller to look at later.
  abbrev pub attempt : Action A → Action (Result A)
  attempt m s = let (r, s') = m s in (ok r, s')

  -- `if err != nil { return f(err) }`
  abbrev pub map_error : (Error → Error) → Action A → Action A
  map_error f m s = let (r, s') = m s in elim r [ ok a ↦ (ok a, s') | err e ↦ (err (f e), s') ]

infixl 5 ◌>>=◌ ◌>>◌
abbrev pub ◌>>=◌ : {A B : Type 0} → Action A → (A → Action B) → Action B
◌>>=◌ m f s = let (r, s') = m s in elim r [ ok a ↦ f a s' | err e ↦ (err e, s') ]

abbrev pub ◌>>◌ : {B : Type 0} → Action (Unit {0}) → Action B → Action B
m >> k = m >>= λ _. k

-- `if condition { return err }`
abbrev pub throw_if : Bool → Error → Action (Unit {0})
throw_if b e s = (if b then err e else ok tt, s)
