-- ===== src/Token/Access.antt =====
-- AccessManager of infra/token/access.go. The package golang-jwt is a parameter. A call of
-- GenerateJWTID reads the random source once, and `random` is what io.ReadFull read, or `none`
-- where it failed.
use content_platform.Prelude.{
  ℕ, ◌+◌, ◌*◌, ℤ, is_positive, Text, List, [], ◌∷◌, Bool, true, false, not, ◌&&◌, ◌||◌, Option,
  none, some, ltb, leb, ◌==◌, text_eq, length, if◌then◌else◌,
}
use content_platform.GoTime.{Time, second, is_zero}
use content_platform.GoStrings.{contains}
use content_platform.Domain.Validation.{byte_length, trim_space}
use content_platform.Errors.{Result, ok, err, adapter_error}
use content_platform.Ports.{AccessTokenManager}
use content_platform.Authn.{Principal}
use content_platform.Token.Decimal.{format_int, parse_positive_id}
use content_platform.Token.Base64.{Bytes, encode, decode}
use content_platform.Token.UnixTime.{unix, from_unix, whole_after}
pub mod Jwt
pub mod RoundTrip
pub mod Sound

abbrev pub max_access_token_bytes : ℕ
max_access_token_bytes = 4096

abbrev pub min_jwt_id_bytes : ℕ
min_jwt_id_bytes = 16

abbrev pub max_jwt_id_bytes : ℕ
max_jwt_id_bytes = 128

-- maxFutureIssuedAt
abbrev pub max_future_issued_at : ℕ
max_future_issued_at = 30 * second

-- accessTokenClaims. The times are seconds from 1970, as UnixTime keeps an int64.
pub record AccessTokenClaims : Type 0 where
  pub issuer : Text
  pub subject : Text
  pub audience : List Text
  pub issued_at_unix : Option ℕ
  pub expires_at_unix : Option ℕ
  pub jwt_id : Text
  pub session_id : Text

-- What the code calls of golang-jwt.
pub record JwtLibrary : Type 0 where
  -- `jwt.NewWithClaims(method, claims).SignedString(key)`: the method by its name, the key, the claims
  pub signed_string : Text → Text → AccessTokenClaims → Option Text
  -- `parser.ParseWithClaims` without claims validation: the name of the only method that is valid, the
  -- key for each method, the token. `none` where it fails or the token is not valid.
  pub parse_with_claims : Text → (Text → Option Text) → Text → Option AccessTokenClaims

-- AccessManager, with what its random source yields.
pub record AccessManager : Type 0 where
  pub secret : Text
  pub issuer : Text
  pub audience : Text
  pub random : Option Bytes

-- NewAccessManagerWithReader: `none` is ErrInvalidAccessConfig.
unfoldable pub new_access_manager : Text → Text → Text → Option Bytes → Option AccessManager
new_access_manager secret issuer audience random =
    if ltb (byte_length secret) 32
      || text_eq (trim_space issuer) []
      || text_eq (trim_space audience) []
    then none
    else some (record { secret = secret; issuer = issuer; audience = audience; random = random })

-- AccessManager.GenerateJWTID
unfoldable pub generate_jwt_id : AccessManager → Result Text
generate_jwt_id m = elim m.random [ none ↦ err adapter_error | some raw ↦ ok (encode raw) ]

-- What validJWTID does with the bytes.
unfoldable pub canonical_jwt_id : Text → Option Bytes → Bool
canonical_jwt_id value none = false
canonical_jwt_id value (some decoded) = not (length decoded == 0) && text_eq (encode decoded) value

-- validJWTID
unfoldable pub valid_jwt_id : Text → Bool
valid_jwt_id value =
    if ltb (byte_length value) min_jwt_id_bytes
      || ltb max_jwt_id_bytes (byte_length value)
      || contains b'=' value
    then false
    else canonical_jwt_id value (decode value)

-- jwt.SigningMethodHS256.Alg()
abbrev pub hs256 : Text
hs256 = b'H' ∷ b'S' ∷ b'2' ∷ b'5' ∷ b'6' ∷ []

-- The claims that Sign makes.
unfoldable pub claims_of : AccessManager → ℤ → ℤ → Time → Time → Text → AccessTokenClaims
claims_of m user_id session_id issued_at expires_at jwt_id = record {
  issuer = m.issuer;
  subject = format_int user_id;
  audience = m.audience ∷ [];
  issued_at_unix = some (unix issued_at);
  expires_at_unix = some (unix expires_at);
  jwt_id = jwt_id;
  session_id = format_int session_id;
}

-- The key function of Verify.
unfoldable pub verification_key : AccessManager → Text → Option Text
verification_key m method = if text_eq method hs256 then some m.secret else none

-- `claims.Issuer != m.issuer || len(claims.Audience) != 1 || claims.Audience[0] != m.audience`
unfoldable pub names_differ : AccessManager → AccessTokenClaims → Bool
names_differ m claims = elim claims.audience [
  | [] ↦ true
  | audience ∷ rest ↦
      not (text_eq claims.issuer m.issuer)
      || not (length rest == 0)
      || not (text_eq audience m.audience)
]

-- The tests of the times in Verify.
unfoldable pub times_refused : ℕ → ℕ → Time → Bool
times_refused issued_at_unix expires_at_unix now =
    let issued_at = from_unix issued_at_unix in
    let expires_at = from_unix expires_at_unix in
    not (ltb issued_at expires_at)
    || not (whole_after expires_at now)
    || whole_after issued_at (now + max_future_issued_at)

-- What Verify does once it has the two times.
unfoldable pub accept_times : AccessTokenClaims → Time → ℕ → ℕ → ℤ → ℤ → Option Principal
accept_times claims now issued_at expires_at user_id session_id =
    if not (valid_jwt_id claims.jwt_id) || times_refused issued_at expires_at now
    then none
    else some (record { user_id = user_id; session_id = session_id })

-- What Verify does once it has the two identifiers.
unfoldable pub accept_claims : AccessManager → AccessTokenClaims → Time → ℤ → ℤ → Option Principal
accept_claims m claims now user_id session_id =
    if names_differ m claims then none else elim claims.issued_at_unix [
      | none ↦ none
      | some issued_at ↦ elim claims.expires_at_unix [
        | none ↦ none
        | some expires_at ↦ accept_times claims now issued_at expires_at user_id session_id
      ]
    ]

-- What Verify does with the claims of a token whose signature is right.
unfoldable pub verify_claims : AccessManager → AccessTokenClaims → Time → Option Principal
verify_claims m claims now = elim (parse_positive_id claims.subject) [
  | none ↦ none
  | some user_id ↦ elim (parse_positive_id claims.session_id) [
    | none ↦ none
    | some session_id ↦ accept_claims m claims now user_id session_id
  ]
]

module _ (jwt : JwtLibrary) where
  -- AccessManager.Sign
  unfoldable pub sign : AccessManager → ℤ → ℤ → Time → Time → Text → Result Text
  sign m user_id session_id issued_at expires_at jwt_id =
      let claims = claims_of m user_id session_id issued_at expires_at jwt_id in
      if not (is_positive user_id)
        || not (is_positive session_id)
        || is_zero issued_at
        || is_zero expires_at
        || not (valid_jwt_id jwt_id)
      then err adapter_error
      else if leb (unix expires_at) (unix issued_at)
      then err adapter_error
      else elim (jwt.signed_string hs256 m.secret claims) [
        | none ↦ err adapter_error
        | some raw ↦
            if ltb max_access_token_bytes (byte_length raw) then err adapter_error else ok raw
      ]

  -- AccessManager.Verify: `none` is ErrInvalidAccessToken.
  unfoldable pub verify : AccessManager → Text → Time → Option Principal
  verify m raw now =
      if text_eq raw [] || ltb max_access_token_bytes (byte_length raw) || is_zero now
      then none
      else elim (jwt.parse_with_claims hs256 (verification_key m) raw) [
        | none ↦ none
        | some claims ↦ verify_claims m claims now
      ]

  -- The manager as the service sees it.
  unfoldable pub access_token_manager : AccessManager → AccessTokenManager
  access_token_manager m = record { generate_jwt_id = generate_jwt_id m; sign = sign m }
