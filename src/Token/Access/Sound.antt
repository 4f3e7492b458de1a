-- ===== src/Token/Access/Sound.antt =====
-- What Verify has tested of a token that it accepts.
use content_platform.Prelude.{
  ℕ, ◌+◌, ◌*◌, ◌≤◌, ◌<◌, ℤ, pos, Text, List, [], ◌∷◌, true, false, some, ◌≡◌, refl, ◌∙◌, ap, arith,
  Option-cases, inl, inr, text_eq_sound,
}
use content_platform.GoTime.{Time, second}
use content_platform.Authn.{Principal}
use content_platform.Token.Decimal.{int64_cutoff, format_int, parse_positive_id}
use content_platform.Token.Decimal.RoundTrip.{parse_positive_id_iff}
use content_platform.Token.UnixTime.{from_unix, whole_after, internal_seconds}
use content_platform.Token.Access.{
  AccessTokenClaims, JwtLibrary, AccessManager, hs256, valid_jwt_id, verification_key, names_differ,
  times_refused, accept_times, accept_claims, verify_claims, verify,
}

-- An identifier that a claim names: a positive int64, in decimal.
abbrev pub IsNamed : Text → ℤ → Type 0
IsNamed text v = (n : ℕ) × (v ≡ pos n) × (text ≡ format_int (pos n)) × (0 < n) × (n < int64_cutoff)

-- Issued before it expires, not expired at `now`, and not issued more than 30 seconds after `now`.
abbrev pub IsTimely : AccessTokenClaims → Time → Type 0
IsTimely c now =
    (i : ℕ) × (e : ℕ) × (c.issued_at_unix ≡ some i)
    × (c.expires_at_unix ≡ some e)
    × (from_unix i < from_unix e)
    × (internal_seconds now < from_unix e)
    × (from_unix i ≤ internal_seconds (now + 30 * second))

pub record IsAccepted (m : AccessManager) (c : AccessTokenClaims) (now : Time) (p : Principal)
    : Type 0 where
  pub user : IsNamed c.subject p.user_id
  pub session : IsNamed c.session_id p.session_id
  pub issuer : c.issuer ≡ m.issuer
  pub audience : c.audience ≡ m.audience ∷ []
  pub identifier : valid_jwt_id c.jwt_id ≡ true
  pub times : IsTimely c now

names_differ_sound :
    (m : AccessManager) (c : AccessTokenClaims) (names : List Text)
    → c.audience ≡ names
    → names_differ m c ≡ false
    → (c.issuer ≡ m.issuer) × (c.audience ≡ m.audience ∷ [])
unfolding names_differ
names_differ_sound m c [] e h = absurd (ground (arith, e))
names_differ_sound m c (a ∷ []) e h = (
  ground (arith, text_eq_sound c.issuer m.issuer, e),
  e ∙ ap (λ (t : Text). t ∷ []) (ground (arith, text_eq_sound a m.audience, e)),
)
names_differ_sound m c (a ∷ b ∷ rest) e h = absurd (ground (arith, e))

times_refused_sound :
    (i e : ℕ) (now : Time)
    → times_refused i e now ≡ false
    → (from_unix i < from_unix e)
      × (internal_seconds now < from_unix e)
      × (from_unix i ≤ internal_seconds (now + 30 * second))
unfolding times_refused whole_after
times_refused_sound i e now h = ground arith

accept_times_sound :
    (c : AccessTokenClaims) (now : Time) (i e : ℕ) (u s : ℤ) (p : Principal)
    → accept_times c now i e u s ≡ some p
    → (valid_jwt_id c.jwt_id ≡ true)
      × (times_refused i e now ≡ false)
      × (p.user_id ≡ u)
      × (p.session_id ≡ s)
unfolding accept_times
accept_times_sound c now i e u s p h = ground arith

module _ (m : AccessManager) (c : AccessTokenClaims) (now : Time) (p : Principal) where
  accept_claims_sound :
      (u s : ℤ)
      → accept_claims m c now u s ≡ some p
      → (c.issuer ≡ m.issuer)
        × (c.audience ≡ m.audience ∷ [])
        × (valid_jwt_id c.jwt_id ≡ true)
        × IsTimely c now
        × (p.user_id ≡ u)
        × (p.session_id ≡ s)
  unfolding accept_claims
  accept_claims_sound u s h = elim (Option-cases c.issued_at_unix) [
    | inl e ↦ absurd (ground (arith, e))
    | inr (i, e) ↦ elim (Option-cases c.expires_at_unix) [
      | inl f ↦ absurd (ground (arith, e, f))
      | inr (x, f) ↦
          let (id, timely, user, session) =
            accept_times_sound c now i x u s p (ground (arith, e, f)) in
          let (order, alive, skew) = times_refused_sound i x now timely in
          let (issuer, audience) = names_differ_sound m c c.audience refl (ground (arith, e, f)) in
          (issuer, audience, id, (i, x, e, f, order, alive, skew), user, session)
    ]
  ]

  verify_claims_sound : verify_claims m c now ≡ some p → IsAccepted m c now p
  unfolding verify_claims
  verify_claims_sound h = elim (Option-cases (parse_positive_id c.subject)) [
    | inl e ↦ absurd (ground (arith, e))
    | inr (u, e) ↦ elim (Option-cases (parse_positive_id c.session_id)) [
      | inl f ↦ absurd (ground (arith, e, f))
      | inr (s, f) ↦
          let (issuer, audience, id, timely, user, session) =
            accept_claims_sound u s (ground (arith, e, f)) in
          let named = (parse_positive_id_iff c.subject u).0 e in
          let named_session = (parse_positive_id_iff c.session_id s).0 f in
          record {
            user = (named.0, user ∙ named.1, named.2, named.3, named.4);
            session = (
              named_session.0,
              session ∙ named_session.1,
              named_session.2,
              named_session.3,
              named_session.4,
            );
            issuer = issuer;
            audience = audience;
            identifier = id;
            times = timely;
          }
    ]
  ]

-- Verify accepts a token only with claims that the JWT library has verified with the manager's secret
-- for HS256. They name the user and the session that it returns, positive int64 in canonical decimal,
-- the manager's issuer, its audience alone and a valid token identifier; the token was issued before it
-- expires, has not expired at `now`, and was not issued more than 30 seconds after `now`.
pub verify_sound :
    (jwt : JwtLibrary) (m : AccessManager) (raw : Text) (now : Time) (p : Principal)
    → verify jwt m raw now ≡ some p
    → (c : AccessTokenClaims) × (jwt.parse_with_claims hs256 (verification_key m) raw ≡ some c)
      × IsAccepted m c now p
unfolding verify
verify_sound jwt m raw now p h =
    elim (Option-cases (jwt.parse_with_claims hs256 (verification_key m) raw)) [
      | inl e ↦ absurd (ground (arith, e))
      | inr (c, e) ↦ (c, e, verify_claims_sound m c now p (ground (arith, e)))
    ]
