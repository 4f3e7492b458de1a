-- ===== src/Tests/Tokens.antt =====
-- The token and password adapters at small inputs, with a JWT library and a bcrypt that are functions.
use content_platform.Prelude.{
  ℕ, ◌+◌, ◌*◌, ◌<◌, pos, Text, codes, List, [], ◌∷◌, Bool, true, false, ◌&&◌, Option, none, some,
  ◌≡◌, ◌≢◌, ◌↔◌, refl, sym, ◌∙◌, ap, arith, text_eq, text_eq_sound, ◌==◌, if◌then◌else◌,
  is_positive,
}
use content_platform.GoTime.{second, is_zero, year_in_range}
use content_platform.Errors.{ok}
use content_platform.Domain.Validation.{byte_length, rune_width}
use content_platform.Ports.{Digest}
use content_platform.Token.Decimal.{
  int64_cutoff, format_int, parse_positive_id, all_digits, is_digit, parse_int, parse_uint_loop,
  canonical_value, digits,
}
use content_platform.Token.Decimal.RoundTrip.{parse_positive_id_iff}
use content_platform.Token.Base64.{
  Bytes, encode, decode, decode_quanta, join_four, join_three, join_two, skip_newlines, symbol,
  symbol_value,
}
use content_platform.Token.Refresh.{
  format, generate, parse, parse_parts, decode_refresh_secret, canonical_secret,
}
use content_platform.Token.Refresh.TokenText.{IsSecret, token_text}
use content_platform.Token.Refresh.RoundTrip.{parse_iff, parse-format-generate}
use content_platform.Token.Access.{
  AccessTokenClaims, JwtLibrary, AccessManager, hs256, claims_of, verification_key, sign, verify,
  valid_jwt_id, canonical_jwt_id,
}
use content_platform.Token.Access.Jwt.{IsJwt, IsUtf8}
use content_platform.Token.Access.RoundTrip.{IsLive, verify-sign}
use content_platform.Token.Access.Sound.{IsAccepted, verify_sound}
use content_platform.Tests.Fixture.{today}
use content_platform.GoStrings.{count, cut, contains}
use content_platform.Token.UnixTime.{unix, internal_seconds}

parse_positive_id_iff_example : (parse_positive_id (codes "42") ≡ some (pos 42)) ↔ (
    (n : ℕ) × (pos 42 ≡ pos n) × (codes "42" ≡ format_int (pos n)) × (0 < n) × (n < int64_cutoff))
parse_positive_id_iff_example = parse_positive_id_iff (codes "42") (pos 42)

-- A digest that keeps the bytes.
abbrev pub sha256 : Bytes → Digest
sha256 raw = raw

abbrev pub secret : Bytes
secret =
    1 ∷ 2 ∷ 3 ∷ 4 ∷ 5 ∷ 6 ∷ 7 ∷ 8 ∷ 9 ∷ 10 ∷ 11 ∷ 12 ∷ 13 ∷ 14 ∷ 15 ∷ 16 ∷ 17 ∷ 18 ∷ 19 ∷ 20 ∷ 21
    ∷ 22 ∷ 23 ∷ 24 ∷ 25 ∷ 26 ∷ 27 ∷ 28 ∷ 29 ∷ 30 ∷ 31 ∷ 255 ∷ []

pub secret-IsSecret : IsSecret secret
secret-IsSecret = omega arith

abbrev refresh_token : Text
refresh_token = codes "42.AQIDBAUGBwgJCgsMDQ4PEBESExQVFhcYGRobHB0eH_8"

parse_iff_example : (parse sha256 refresh_token ≡ ok (pos 42, secret)) ↔ (
    (n : ℕ) × (raw : Bytes) × (pos 42 ≡ pos n)
    × (secret ≡ sha256 raw)
    × (0 < n)
    × (n < int64_cutoff)
    × IsSecret raw
    × (refresh_token ≡ token_text n raw))
parse_iff_example = parse_iff sha256 refresh_token (pos 42) secret

refresh_token-parsed : parse sha256 refresh_token ≡ ok (pos 42, secret)
unfolding parse byte_length rune_width count cut contains parse_parts parse_positive_id all_digits
    is_digit parse_int parse_uint_loop canonical_value digits text_eq format_int
    decode_refresh_secret canonical_secret decode decode_quanta join_four join_three join_two
    skip_newlines symbol symbol_value encode
refresh_token-parsed = refl

generated : generate sha256 (some secret) ≡ ok (encode secret, secret)
unfolding generate
generated = refl

parse-format-generate_example :
    (token : Text) × (format (pos 42) (encode secret) ≡ ok token)
    × (parse sha256 token ≡ ok (pos 42, secret))
parse-format-generate_example =
    parse-format-generate sha256 secret 42 (encode secret) secret secret-IsSecret (omega arith)
      (omega arith) generated

abbrev pub manager : AccessManager
manager = record {
  secret = codes "0123456789abcdef0123456789abcdef";
  issuer = codes "content-platform";
  audience = codes "content-platform-api";
  random = some (0 ∷ 1 ∷ 2 ∷ 3 ∷ 4 ∷ 5 ∷ 6 ∷ 7 ∷ 8 ∷ 9 ∷ 10 ∷ 11 ∷ 12 ∷ 13 ∷ 14 ∷ 15 ∷ []);
}

abbrev jwt_id : Text
jwt_id = codes "AAECAwQFBgcICQoLDA0ODw"

abbrev claims : AccessTokenClaims
claims = claims_of manager (pos 1) (pos 7) today (today + 60 * second) jwt_id

-- The texts of claims, one after another, and the instants.
unfoldable pub option_eq : Option ℕ → Option ℕ → Bool
option_eq none none = true
option_eq (some a) (some b) = a == b
option_eq none (some b) = false
option_eq (some a) none = false

option_eq_sound : (a b : Option ℕ) → option_eq a b ≡ true → a ≡ b
unfolding option_eq
option_eq_sound a b h = ground arith

unfoldable pub texts_eq : List Text → List Text → Bool
texts_eq [] [] = true
texts_eq (a ∷ s) (b ∷ t) = text_eq a b && texts_eq s t
texts_eq [] (b ∷ t) = false
texts_eq (a ∷ s) [] = false

texts_eq_sound : (s t : List Text) → texts_eq s t ≡ true → s ≡ t
unfolding texts_eq
texts_eq_sound [] [] h = refl
texts_eq_sound (a ∷ s) (b ∷ t) h = ground (arith, text_eq_sound a b, texts_eq_sound s t)
texts_eq_sound [] (b ∷ t) h = absurd (cc)
texts_eq_sound (a ∷ s) [] h = absurd (cc)

unfoldable pub claims_eq : AccessTokenClaims → AccessTokenClaims → Bool
claims_eq c d =
    text_eq c.issuer d.issuer
    && text_eq c.subject d.subject
    && texts_eq c.audience d.audience
    && option_eq c.issued_at_unix d.issued_at_unix
    && option_eq c.expires_at_unix d.expires_at_unix
    && text_eq c.jwt_id d.jwt_id
    && text_eq c.session_id d.session_id

claims_eq_sound : (c d : AccessTokenClaims) → claims_eq c d ≡ true → c ≡ d
unfolding claims_eq
claims_eq_sound c d h = ground (
  arith,
  text_eq_sound c.issuer d.issuer,
  text_eq_sound c.subject d.subject,
  texts_eq_sound c.audience d.audience,
  option_eq_sound c.issued_at_unix d.issued_at_unix,
  option_eq_sound c.expires_at_unix d.expires_at_unix,
  text_eq_sound c.jwt_id d.jwt_id,
  text_eq_sound c.session_id d.session_id,
)

abbrev pub access_token : Text
access_token = codes "header.claims.signature"

-- A library that signs the claims of this module with the manager's secret, and nothing else.
abbrev pub jwt : JwtLibrary
jwt = record {
  signed_string = λ method key c.
      if text_eq method hs256 && text_eq key manager.secret && claims_eq c claims
      then some access_token
      else none;
  parse_with_claims = λ method key_of raw. elim (key_of method) [
    | none ↦ none
    | some key ↦
        if text_eq key manager.secret && text_eq raw access_token then some claims else none
  ];
}

jwt-never_empty : (key : Text) (c : AccessTokenClaims) → jwt.signed_string hs256 key c ≢ some []
jwt-never_empty key c h = ground arith

jwt-signed :
    (key raw : Text) (c : AccessTokenClaims)
    → jwt.signed_string hs256 key c ≡ some raw
    → (text_eq key manager.secret ≡ true) × (claims_eq c claims ≡ true) × (access_token ≡ raw)
jwt-signed key raw c h = (ground arith, ground arith, ground arith)

jwt-parsed :
    (key raw : Text) (key_of : Text → Option Text)
    → key_of hs256 ≡ some key
    → text_eq key manager.secret ≡ true
    → raw ≡ access_token
    → jwt.parse_with_claims hs256 key_of raw ≡ some claims
unfolding text_eq
jwt-parsed key raw key_of h e f = rw (h, e, f) refl

pub jwt-IsJwt : IsJwt jwt
jwt-IsJwt = record {
  never_empty = jwt-never_empty;
  parse_signed = λ key raw c key_of valid h e.
      let (a, b, d) = jwt-signed key raw c e in
      jwt-parsed key raw key_of h a (sym d) ∙ ap some (sym (claims_eq_sound c claims b));
}

access_token-signed :
    sign jwt manager (pos 1) (pos 7) today (today + 60 * second) jwt_id ≡ ok access_token
unfolding sign is_positive is_zero valid_jwt_id byte_length rune_width contains canonical_jwt_id
    decode decode_quanta join_four join_three join_two skip_newlines symbol symbol_value text_eq
    encode unix internal_seconds claims_of digits format_int claims_eq texts_eq option_eq
access_token-signed = refl

pub issuer-IsUtf8 : IsUtf8 manager.issuer
issuer-IsUtf8 = omega arith

pub audience-IsUtf8 : IsUtf8 manager.audience
audience-IsUtf8 = omega arith

today-IsLive : IsLive today (today + 60 * second) today
unfolding year_in_range is_zero
today-IsLive = (refl, refl, refl, refl, omega arith, omega arith)

access_token-verified :
    verify jwt manager access_token today ≡ some (record { user_id = pos 1; session_id = pos 7 })
access_token-verified =
    verify-sign jwt jwt-IsJwt manager 1 7 today (today + 60 * second) jwt_id access_token today
      issuer-IsUtf8 audience-IsUtf8 (omega arith) (omega arith) today-IsLive access_token-signed

verify-sign_example :
    verify jwt manager access_token today ≡ some (record { user_id = pos 1; session_id = pos 7 })
verify-sign_example =
    verify-sign jwt jwt-IsJwt manager 1 7 today (today + 60 * second) jwt_id access_token today
      issuer-IsUtf8 audience-IsUtf8 (omega arith) (omega arith) today-IsLive access_token-signed

verify_sound_example :
    (c : AccessTokenClaims) × (jwt.parse_with_claims hs256 (verification_key manager) access_token
      ≡ some c)
    × IsAccepted manager c today (record { user_id = pos 1; session_id = pos 7 })
verify_sound_example =
    verify_sound jwt manager access_token today (record { user_id = pos 1; session_id = pos 7 })
      access_token-verified
