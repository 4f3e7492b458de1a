-- ===== src/Token/Refresh.antt =====
-- RefreshCodec of infra/token/refresh.go. SHA-256 is a parameter. A call of `generate` reads the
-- random source once, and `random` is what io.ReadFull read, or `none` where it failed.
use content_platform.Prelude.{
  ℕ, ◌+◌, ℤ, is_positive, Text, [], ◌∷◌, ◌++◌, Bool, true, false, not, ◌||◌, Option, none, some,
  ltb, ◌==◌, text_eq, length, if◌then◌else◌,
}
use content_platform.GoStrings.{contains, count, cut}
use content_platform.Domain.Validation.{byte_length}
use content_platform.Errors.{Result, ok, err, adapter_error}
use content_platform.Ports.{Digest, RefreshTokenGenerator}
use content_platform.Token.Decimal.{format_int, parse_positive_id}
use content_platform.Token.Base64.{Bytes, encode, decode}
pub mod TokenText
pub mod RoundTrip

abbrev pub refresh_secret_bytes : ℕ
refresh_secret_bytes = 32

abbrev pub max_refresh_token_bytes : ℕ
max_refresh_token_bytes = 256

-- What decodeRefreshSecret does with the bytes.
unfoldable pub canonical_secret : Text → Option Bytes → Option Bytes
canonical_secret encoded none = none
canonical_secret encoded (some raw) =
    if not (length raw == refresh_secret_bytes)
    then none
    else if not (text_eq (encode raw) encoded)
    then none
    else some raw

-- decodeRefreshSecret: `none` is ErrInvalidRefresh.
unfoldable pub decode_refresh_secret : Text → Option Bytes
decode_refresh_secret encoded =
    if text_eq encoded [] || contains b'=' encoded
    then none
    else canonical_secret encoded (decode encoded)

-- RefreshCodec.Format
unfoldable pub format : ℤ → Text → Result Text
format session_id encoded_secret =
    let token = format_int session_id ++ (b'.' ∷ encoded_secret) in
    if not (is_positive session_id)
    then err adapter_error
    else elim (decode_refresh_secret encoded_secret) [
      | none ↦ err adapter_error
      | some _ ↦
          if ltb max_refresh_token_bytes (byte_length token) then err adapter_error else ok token
    ]

module _ (sha256 : Bytes → Digest) where
  -- RefreshCodec.Generate
  unfoldable pub generate : Option Bytes → Result (Text × Digest)
  generate none = err adapter_error
  generate (some raw) = ok (encode raw, sha256 raw)

  -- What Parse does with the two parts of a token.
  unfoldable pub parse_parts : Text → Text → Result (ℤ × Digest)
  parse_parts session_raw encoded_secret = elim (parse_positive_id session_raw) [
    | none ↦ err adapter_error
    | some session_id ↦ elim (decode_refresh_secret encoded_secret) [
      | none ↦ err adapter_error
      | some secret ↦ ok (session_id, sha256 secret)
    ]
  ]

  -- RefreshCodec.Parse
  unfoldable pub parse : Text → Result (ℤ × Digest)
  parse raw =
      if (byte_length raw == 0)
        || ltb max_refresh_token_bytes (byte_length raw)
        || not (count b'.' raw == 1)
      then err adapter_error
      else parse_parts (cut b'.' raw).0 (cut b'.' raw).1

  -- What NewRefreshCodecWithReader returns, as the service sees it. Match compares in constant time.
  unfoldable pub refresh_codec : Option Bytes → RefreshTokenGenerator
  refresh_codec random = record {
    generate = generate random;
    format = format;
    parse = parse;
    match_digest = text_eq;
  }
