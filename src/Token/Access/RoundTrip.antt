-- ===== src/Token/Access/RoundTrip.antt =====
-- Access tokens: what Sign signs, Verify accepts while it lives.
use content_platform.Prelude.{
  ℕ, ◌+◌, ◌*◌, ◌/◌, ◌≤◌, ◌<◌, ℤ, pos, is_positive, Text, [], ◌∷◌, true, false, some, ◌≡◌, refl, ◌∙◌,
  arith, Option-cases, inl, inr, text_eq, text_eq_refl,
}
use content_platform.GoTime.{Time, second, is_zero, year_in_range}
use content_platform.Domain.Validation.{byte_length}
use content_platform.Errors.{ok}
use content_platform.Token.Decimal.{int64_cutoff}
use content_platform.Token.Decimal.RoundTrip.{parse_positive_id-format_int}
use content_platform.Token.UnixTime.{
  unix, whole_after, time_origin, internal_seconds, from_unix-unix, internal_seconds-in_range,
}
use content_platform.Token.Access.{
  AccessTokenClaims, JwtLibrary, AccessManager, hs256, valid_jwt_id, claims_of, verification_key,
  names_differ, times_refused, accept_times, accept_claims, verify_claims, sign, verify,
}
use content_platform.Token.Access.Jwt.{IsUtf8, IsJwt, claims_of-IsJsonClaims}

verification_key-hs256 : (m : AccessManager) → verification_key m hs256 ≡ some m.secret
unfolding verification_key text_eq
verification_key-hs256 m = refl

never_empty_text :
    (jwt : JwtLibrary)
    → IsJwt jwt
    → (key : Text) (c : AccessTokenClaims) (raw : Text) → jwt.signed_string hs256 key c ≡ some raw
    → text_eq raw [] ≡ false
unfolding text_eq
never_empty_text jwt library key c [] h = absurd (library.never_empty key c h)
never_empty_text jwt library key c (a ∷ s) h = refl

verify-parsed :
    (jwt : JwtLibrary) (m : AccessManager) (raw : Text) (now : Time) (c : AccessTokenClaims)
    → text_eq raw [] ≡ false
    → byte_length raw ≤ 4096
    → is_zero now ≡ false
    → jwt.parse_with_claims hs256 (verification_key m) raw ≡ some c
    → verify jwt m raw now ≡ verify_claims m c now
unfolding verify
verify-parsed jwt m raw now c h k l e = ground arith

internal_seconds-skewed :
    (t : Time)
    → year_in_range t ≡ true
    → internal_seconds (t + 30 * second) ≡ (t + 30 * second) / second + time_origin
unfolding internal_seconds year_in_range
internal_seconds-skewed t h = ground arith

unix-lt :
    (t u : Time)
    → year_in_range t ≡ true
    → year_in_range u ≡ true
    → unix t < unix u
    → t / second < u / second
unfolding unix internal_seconds year_in_range
unix-lt t u h k o = ground arith

-- The token lives at `now`, and was not issued more than 30 seconds after it.
abbrev pub IsLive : Time → Time → Time → Type 0
IsLive issued expires now =
    (year_in_range issued ≡ true)
    × (year_in_range expires ≡ true)
    × (year_in_range now ≡ true)
    × (is_zero now ≡ false)
    × (now / second < expires / second)
    × (issued ≤ now + 30 * second)

times_refused-IsLive :
    (issued expires now : Time)
    → IsLive issued expires now
    → issued / second < expires / second
    → times_refused (unix issued) (unix expires) now ≡ false
unfolding times_refused whole_after
times_refused-IsLive issued expires now (a, b, c, z, l, d) o =
    rw
      (
        from_unix-unix issued,
        from_unix-unix expires,
        internal_seconds-in_range issued a,
        internal_seconds-in_range expires b,
        internal_seconds-in_range now c,
        internal_seconds-skewed now c,
      )
      (ground arith)

-- What Sign tests before it signs.
IsSigned : JwtLibrary → AccessManager → ℕ → ℕ → Time → Time → Text → Text → Type 0
IsSigned jwt m u s issued expires id raw =
    (0 < u)
    × (0 < s)
    × (valid_jwt_id id ≡ true)
    × (unix issued < unix expires)
    × (jwt.signed_string hs256 m.secret (claims_of m (pos u) (pos s) issued expires id) ≡ some raw)
    × (byte_length raw ≤ 4096)

sign_sound :
    (jwt : JwtLibrary) (m : AccessManager) (u s : ℕ) (issued expires : Time) (id raw : Text)
    → sign jwt m (pos u) (pos s) issued expires id ≡ ok raw
    → IsSigned jwt m u s issued expires id raw
unfolding sign is_positive IsSigned
sign_sound jwt m u s issued expires id raw h =
    elim (Option-cases
      (jwt.signed_string hs256 m.secret (claims_of m (pos u) (pos s) issued expires id))) [
        | inl e ↦ absurd (ground (arith, e))
        | inr (t, e) ↦ (
          ground (arith, e),
          ground (arith, e),
          ground (arith, e),
          ground (arith, e),
          ground (arith, e),
          ground (arith, e),
        )
      ]

accept_times-live :
    (c : AccessTokenClaims) (now : Time) (i e : ℕ) (u s : ℤ)
    → valid_jwt_id c.jwt_id ≡ true
    → times_refused i e now ≡ false
    → accept_times c now i e u s ≡ some (record { user_id = u; session_id = s })
unfolding accept_times
accept_times-live c now i e u s h k = ground arith

verify_claims-claims_of :
    (m : AccessManager) (u s : ℕ) (issued expires now : Time) (id : Text)
    → 0 < u
    → u < int64_cutoff
    → 0 < s
    → s < int64_cutoff
    → valid_jwt_id id ≡ true
    → times_refused (unix issued) (unix expires) now ≡ false
    → verify_claims m (claims_of m (pos u) (pos s) issued expires id) now
      ≡ some (record { user_id = pos u; session_id = pos s })
unfolding verify_claims claims_of accept_claims names_differ
verify_claims-claims_of m u s issued expires now id lo hi lo' hi' v t = ground (
  arith,
  parse_positive_id-format_int u lo hi,
  parse_positive_id-format_int s lo' hi',
  text_eq_refl m.issuer,
  text_eq_refl m.audience,
  accept_times-live (claims_of m (pos u) (pos s) issued expires id) now (unix issued) (unix expires)
      (pos u) (pos s) v t,
)

module _ (jwt : JwtLibrary) (library : IsJwt jwt) (m : AccessManager) (u s : ℕ)
    (issued expires : Time) (id raw : Text) where
  -- A token that Sign made for a user and a session, positive int64 both, is accepted by Verify of the
  -- same manager, and yields that user and that session, at every instant before its second of expiry
  -- that is not more than 30 seconds before its issue. The instants are in the years 0 to 9999, and
  -- the issuer and the audience are valid UTF-8.
  pub verify-sign :
      (now : Time)
      → IsUtf8 m.issuer
      → IsUtf8 m.audience
      → u < int64_cutoff
      → s < int64_cutoff
      → IsLive issued expires now
      → sign jwt m (pos u) (pos s) issued expires id ≡ ok raw
      → verify jwt m raw now ≡ some (record { user_id = pos u; session_id = pos s })
  unfolding IsSigned
  verify-sign now utf_i utf_a hi hi' live h =
      let (lo, lo', v, order, signed, fits) = sign_sound jwt m u s issued expires id raw h in
      let claims = claims_of m (pos u) (pos s) issued expires id in
      let parsed =
        library.parse_signed m.secret raw claims (verification_key m)
          (claims_of-IsJsonClaims m u s issued expires id utf_i utf_a lo lo' v)
          (verification_key-hs256 m) signed in
      let some_text = never_empty_text jwt library m.secret claims raw signed in
      let accepted = verify_claims-claims_of m u s issued expires now id lo hi lo' hi' v (
        times_refused-IsLive issued expires now live
          (unix-lt issued expires live.0 live.1 order)) in
      verify-parsed jwt m raw now claims some_text fits live.3 parsed ∙ accepted
