-- ===== src/Token/Access/Jwt.antt =====
-- What internal/infra/token/access.go relies on in golang-jwt, and that the claims of Sign are within it.
use content_platform.Prelude.{
  ℕ, ◌<◌, pos, Text, [], ◌∷◌, true, Option, none, some, ◌≡◌, ◌≢◌, sym, subst, arith, All, inl,
  text_eq_sound,
}
use content_platform.GoTime.{Time}
use content_platform.GoStrings.{IsFreeOf}
use content_platform.Token.Decimal.{format_int}
use content_platform.Token.Decimal.Digits.{format_int-All}
use content_platform.Token.Base64.{Bytes, encode, decode}
use content_platform.Token.Base64.RoundTrip.{IsSymbol, encode-IsSymbol}
use content_platform.Token.Access.{
  AccessTokenClaims, JwtLibrary, AccessManager, hs256, canonical_jwt_id, valid_jwt_id, claims_of,
}

-- Valid UTF-8.
abbrev pub IsUtf8 : Text → Type 0
IsUtf8 = All (λ c. c < 0x110000)

abbrev pub IsJsonClaims : AccessTokenClaims → Type 0
IsJsonClaims c =
    IsUtf8 c.issuer
    × IsUtf8 c.subject
    × All IsUtf8 c.audience
    × IsUtf8 c.jwt_id
    × IsUtf8 c.session_id

-- What the code relies on in golang-jwt: a token is never the empty text, and while its key is given for
-- its method, it is parsed into the claims that it was made of, since JSON keeps valid UTF-8 and int64.
pub record IsJwt (jwt : JwtLibrary) : Type 0 where
  pub never_empty : (key : Text) (c : AccessTokenClaims) → jwt.signed_string hs256 key c ≢ some []
  pub parse_signed :
      (key raw : Text) (c : AccessTokenClaims) (key_of : Text → Option Text)
      → IsJsonClaims c
      → key_of hs256 ≡ some key
      → jwt.signed_string hs256 key c ≡ some raw
      → jwt.parse_with_claims hs256 key_of raw ≡ some c

symbols-IsUtf8 : (s : Text) → All IsSymbol s → IsUtf8 s
symbols-IsUtf8 [] h = tt
symbols-IsUtf8 (c ∷ s) ((l, d, e, m), hs) = (omega arith, symbols-IsUtf8 s hs)

free-IsUtf8 : (s : Text) → All (IsFreeOf b'.') s → IsUtf8 s
free-IsUtf8 [] h = tt
free-IsUtf8 (c ∷ s) ((d, m), hs) = (omega arith, free-IsUtf8 s hs)

format_int-IsUtf8 : (n : ℕ) → 0 < n → IsUtf8 (format_int (pos n))
format_int-IsUtf8 n h =
    free-IsUtf8 (format_int (pos n)) (format_int-All b'.' n (inl (omega arith)) h)

canonical_jwt_id_sound :
    (s : Text) (o : Option Bytes) → canonical_jwt_id s o ≡ true → (raw : Bytes) × (s ≡ encode raw)
unfolding canonical_jwt_id
canonical_jwt_id_sound s none h = absurd (cc)
canonical_jwt_id_sound s (some raw) h = (raw, ground (arith, text_eq_sound (encode raw) s))

-- A JWT identifier is the encoding of some bytes.
pub valid_jwt_id_sound : (s : Text) → valid_jwt_id s ≡ true → (raw : Bytes) × (s ≡ encode raw)
unfolding valid_jwt_id
valid_jwt_id_sound s h = canonical_jwt_id_sound s (decode s) (ground arith)

valid_jwt_id-IsUtf8 : (s : Text) → valid_jwt_id s ≡ true → IsUtf8 s
valid_jwt_id-IsUtf8 s h =
    let (raw, e) = valid_jwt_id_sound s h in
    subst IsUtf8 (sym e) (symbols-IsUtf8 (encode raw) (encode-IsSymbol raw))

pub claims_of-IsJsonClaims :
    (m : AccessManager) (u s : ℕ) (issued expires : Time) (id : Text)
    → IsUtf8 m.issuer
    → IsUtf8 m.audience
    → 0 < u
    → 0 < s
    → valid_jwt_id id ≡ true
    → IsJsonClaims (claims_of m (pos u) (pos s) issued expires id)
unfolding claims_of
claims_of-IsJsonClaims m u s issued expires id h k lo lo' v =
    (h, format_int-IsUtf8 u lo, (k, tt), valid_jwt_id-IsUtf8 id v, format_int-IsUtf8 s lo')
