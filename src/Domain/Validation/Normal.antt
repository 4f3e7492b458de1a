-- ===== src/Domain/Validation/Normal.antt =====
-- Normalised values: normalising again changes nothing, so what passes a test of validation.go
-- passes the test for a stored user.
use content_platform.Prelude.{ℕ, ◌++◌, ◌≤◌, Text, [], ◌∷◌, ◌≡◌, refl, arith, ap, ◌∙◌}
use content_platform.Domain.Validation.{
  TextRules, is_space, trim_space, to_lower_rune, to_lower, normalize_email, normalize_display_name,
  validate_display_name,
}
use content_platform.Domain.Validation.Trimming.{
  AllBlank, trim_space-blank, trim_space-map, starts_blank, ends_blank, trim_space_idem,
  trim_space-fixed, trim_space-parts,
}

module _ (rules : TextRules) where
  -- unicode.ToLower above ASCII gives a lower-case letter or the code point itself, and white
  -- space where it is given white space.
  abbrev pub IsLowerTable : Type 0
  IsLowerTable =
      (r : ℕ)
      → 0x80 ≤ r
      → (to_lower_rune rules (rules.lower_table r) ≡ rules.lower_table r)
        × (is_space (rules.lower_table r) ≡ is_space r)

  to_lower_rune_idem :
      (r : ℕ) → IsLowerTable → to_lower_rune rules (to_lower_rune rules r) ≡ to_lower_rune rules r
  unfolding to_lower_rune
  to_lower_rune_idem r h = ground (arith, h r)

  is_space-to_lower_rune : (r : ℕ) → IsLowerTable → is_space (to_lower_rune rules r) ≡ is_space r
  unfolding to_lower_rune is_space
  is_space-to_lower_rune r h = ground (arith, h r)

  to_lower_idem : (s : Text) → IsLowerTable → to_lower rules (to_lower rules s) ≡ to_lower rules s
  unfolding to_lower
  to_lower_idem [] h = refl
  to_lower_idem (r ∷ s) h = cc (to_lower_rune_idem r h, to_lower_idem s h)

  starts_blank-to_lower :
      (s : Text) → IsLowerTable → starts_blank is_space (to_lower rules s) ≡ starts_blank is_space s
  unfolding to_lower
  starts_blank-to_lower [] h = refl
  starts_blank-to_lower (r ∷ s) h = is_space-to_lower_rune r h

  ends_blank-to_lower :
      (s : Text) → IsLowerTable → ends_blank is_space (to_lower rules s) ≡ ends_blank is_space s
  unfolding to_lower
  ends_blank-to_lower [] h = refl
  ends_blank-to_lower (r ∷ []) h = is_space-to_lower_rune r h
  ends_blank-to_lower (r ∷ c ∷ s) h = ends_blank-to_lower (c ∷ s) h

  pub normalize_email_idem :
      (s : Text)
      → IsLowerTable
      → normalize_email rules (normalize_email rules s) ≡ normalize_email rules s
  unfolding normalize_email
  normalize_email_idem s h =
      let (_, _, _, _, _, starts, ends) = trim_space-parts s in
      let t = trim_space s in
      ap (to_lower rules) (
        trim_space-fixed (to_lower rules t) (starts_blank-to_lower t h ∙ starts)
          (ends_blank-to_lower t h ∙ ends))
      ∙ to_lower_idem t h

  -- With a lower-case table that is one, an e-mail address normalises to the same text whatever white
  -- space stands around it, and whatever the case of its letters is; and a normalised address is not
  -- changed by normalising it again.
  pub normalize_email-same :
      (before s after : Text)
      → AllBlank is_space before
      → AllBlank is_space after
      → IsLowerTable
      → (normalize_email rules (before ++ (s ++ after)) ≡ normalize_email rules s)
        × (normalize_email rules (to_lower rules s) ≡ normalize_email rules s)
        × (normalize_email rules (normalize_email rules s) ≡ normalize_email rules s)
  unfolding normalize_email to_lower
  normalize_email-same before s after h k table = (
    ap (to_lower rules) (trim_space-blank before s after h k),
    ap (to_lower rules)
          (trim_space-map (to_lower_rune rules) s (λ r. is_space-to_lower_rune r table))
        ∙ to_lower_idem (trim_space s) table,
    normalize_email_idem s table,
  )

-- A display name normalises to a fixed point of the normalisation, and the normalised name is valid
-- exactly if the name is.
pub normalize_display_name_lem :
    (s : Text)
    → (normalize_display_name (normalize_display_name s) ≡ normalize_display_name s)
      × (validate_display_name (normalize_display_name s) ≡ validate_display_name s)
unfolding normalize_display_name validate_display_name
normalize_display_name_lem s = (trim_space_idem s, rw (trim_space_idem s) refl)
