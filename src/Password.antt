-- ===== src/Password.antt =====
-- infra/password/bcrypt.go. The package golang.org/x/crypto/bcrypt is a parameter.
use content_platform.Prelude.{
  ℕ, ◌≤◌, ℤ, pos, negsuc, Text, List, [], ◌∷◌, codes, Bool, true, false, not, ◌||◌, Option, none,
  some, ltb, ◌==◌, if◌then◌else◌,
}
use content_platform.Domain.Validation.{byte_length}
use content_platform.Errors.{Result, ok, err, adapter_error}
use content_platform.Ports.{PasswordHasher}
pub mod Compare

-- What CompareHashAndPassword returns: nil, ErrMismatchedHashAndPassword, or another error.
pub data Comparison : Type 0 where
  same mismatched broken : Comparison

pub record BcryptLibrary : Type 0 where
  -- `GenerateFromPassword(password, cost)`: `none` for each of its errors
  pub generate : Text → ℕ → Option Text
  -- `Cost(hash)`
  pub cost_of : Text → Option ℕ
  -- `CompareHashAndPassword(hash, password)`
  pub compare_hash_and_password : Text → Text → Comparison

-- Bcrypt
pub record Bcrypt : Type 0 where
  pub cost : ℕ
  pub dummy_hash : Text

-- dummyCandidate
abbrev pub dummy_candidate : Text
dummy_candidate = codes "content-platform-dummy-password"

unfoldable pub valid_cost : ℕ → Bool
valid_cost cost = not (ltb cost 10 || ltb 15 cost)

module _ (bcrypt : BcryptLibrary) where
  unfoldable pub with_cost : ℕ → Result Bcrypt
  with_cost cost =
      if not (valid_cost cost)
      then err adapter_error
      else elim (bcrypt.generate dummy_candidate cost) [
        | none ↦ err adapter_error
        | some dummy_hash ↦ ok (record { cost = cost; dummy_hash = dummy_hash })
      ]

  -- `New`
  unfoldable pub new : ℤ → Result Bcrypt
  unfolding with_cost
  new (negsuc n) = err adapter_error
  new (pos cost) = with_cost cost

  -- Bcrypt.Hash
  unfoldable pub hash : Bcrypt → Text → Result Text
  hash b candidate = elim (bcrypt.generate candidate b.cost) [
    | none ↦ err adapter_error
    | some hashed ↦ ok hashed
  ]

  -- Bcrypt.rejectAfterDummy, with the hashes that it compared with a password.
  unfoldable pub reject_after_dummy : Bcrypt → Result Bool → Result Bool × List Text
  reject_after_dummy b result =
      elim (bcrypt.compare_hash_and_password b.dummy_hash dummy_candidate) [
        | same ↦ (result, b.dummy_hash ∷ [])
        | _ ↦ (err adapter_error, b.dummy_hash ∷ [])
      ]

  unfoldable pub with_hash : Text → Result Bool × List Text → Result Bool × List Text
  with_hash stored (result, hashes) = (result, stored ∷ hashes)

  -- What Compare does with a hash of the configured cost.
  unfoldable pub compare_same_cost : Bcrypt → Text → Text → Result Bool × List Text
  unfolding reject_after_dummy with_hash
  compare_same_cost b stored candidate = elim (bcrypt.compare_hash_and_password stored candidate) [
    | same ↦ (ok true, stored ∷ [])
    | mismatched ↦ (ok false, stored ∷ [])
    | broken ↦ with_hash stored (reject_after_dummy b (err adapter_error))
  ]

  -- Bcrypt.Compare, with the hashes that it compared with a password, in order.
  unfoldable pub compare : Bcrypt → Text → Text → Result Bool × List Text
  unfolding reject_after_dummy compare_same_cost
  compare b stored candidate =
      if ltb 72 (byte_length candidate)
      then reject_after_dummy b (err adapter_error)
      else elim (bcrypt.cost_of stored) [
        | none ↦ reject_after_dummy b (err adapter_error)
        | some cost ↦
            if not (valid_cost cost)
            then reject_after_dummy b (err adapter_error)
            else if not (cost == b.cost)
            then reject_after_dummy b (ok false)
            else compare_same_cost b stored candidate
      ]

  -- The hasher as the service sees it.
  unfoldable pub password_hasher : Bcrypt → PasswordHasher
  password_hasher b = record {
    hash = hash b;
    compare_hash = λ stored candidate. (compare b stored candidate).0;
    dummy_hash = b.dummy_hash;
    dummy_candidate = dummy_candidate;
  }
