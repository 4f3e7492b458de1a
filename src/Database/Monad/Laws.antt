-- ===== src/Database/Monad/Laws.antt =====
-- What a successful chain of calls did, step by step.
use content_platform.Prelude.{◌≡◌, arith, refl, ◌⊎◌, inl, inr}
use content_platform.Errors.{Error, Result, ok, err}
use content_platform.Database.{Store}
use content_platform.Database.Monad.{Action, ◌>>=◌, map_error}

pub Result-cases :
    {A : Type 0} (r : Result A) → ((a : A) × (r ≡ ok a)) ⊎ ((e : Error) × (r ≡ err e))
Result-cases (ok a) = inl (a, refl)
Result-cases (err e) = inr (e, refl)

module _ {A B : Type 0} where
  pub >>=-ok :
      (m : Action A) (f : A → Action B) (s : Store) {b : B} {s' : Store}
      → (m >>= f) s ≡ (ok b, s')
      → (a : A) × (t : Store) × (m s ≡ (ok a, t)) × (f a t ≡ (ok b, s'))
  >>=-ok m f s h = elim (Result-cases (m s).0) [
    | inl (a, e) ↦ (a, (m s).1, ground arith, ground arith)
    | inr (x, e) ↦ absurd (ground arith)
  ]

module _ {A : Type 0} where
  pub map_error-ok :
      (f : Error → Error) (m : Action A) (s : Store) {a : A} {s' : Store}
      → map_error f m s ≡ (ok a, s')
      → m s ≡ (ok a, s')
  map_error-ok f m s h = ground arith
