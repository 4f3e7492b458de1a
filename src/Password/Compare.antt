-- ===== src/Password/Compare.antt =====
-- Comparing passwords: which hashes match, and how much work a comparison is.
use content_platform.Prelude.{
  ℕ, ◌≤◌, Text, List, [], ◌∷◌, true, Option, none, some, ◌≡◌, arith, Option-cases, inl, inr,
}
use content_platform.Domain.Validation.{byte_length}
use content_platform.Errors.{ok}
use content_platform.Password.{
  same, BcryptLibrary, Bcrypt, reject_after_dummy, with_hash, compare_same_cost, compare,
}

-- What the code relies on in bcrypt: a hash has the cost that it was made with, matches its password,
-- and is made of a password of at most 72 bytes only.
pub record IsBcrypt (bcrypt : BcryptLibrary) : Type 0 where
  pub generate-cost :
      (p : Text) (cost : ℕ) (h : Text)
      → bcrypt.generate p cost ≡ some h
      → bcrypt.cost_of h ≡ some cost
  pub generate-same :
      (p : Text) (cost : ℕ) (h : Text)
      → bcrypt.generate p cost ≡ some h
      → bcrypt.compare_hash_and_password h p ≡ same
  pub generate-length :
      (p : Text) (cost : ℕ) (h : Text) → bcrypt.generate p cost ≡ some h → byte_length p ≤ 72

module _ (bcrypt : BcryptLibrary) where
  -- Compare accepts only a password of at most 72 bytes that bcrypt matches with the hash, whose cost is
  -- the configured one.
  pub compare_sound :
      (b : Bcrypt) (h p : Text)
      → (compare bcrypt b h p).0 ≡ ok true
      → (byte_length p ≤ 72)
        × (bcrypt.cost_of h ≡ some b.cost)
        × (bcrypt.compare_hash_and_password h p ≡ same)
  unfolding compare compare_same_cost reject_after_dummy with_hash
  compare_sound b h p e = elim (Option-cases (bcrypt.cost_of h)) [
    | inl f ↦ absurd (ground (arith, f))
    | inr (cost, f) ↦ (ground (arith, f), ground (arith, f), ground (arith, f))
  ]

  -- The cost of the first comparison with a password.
  abbrev pub first_cost : List Text → Option ℕ
  first_cost [] = none
  first_cost (h ∷ hashes) = bcrypt.cost_of h
