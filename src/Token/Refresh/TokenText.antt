-- ===== src/Token/Refresh/TokenText.antt =====
-- The text of a refresh token (internal/infra/token/refresh.go): an identifier, a dot and 32 bytes in base64.
use content_platform.Prelude.{
  ℕ, ◌+◌, ◌≤◌, ◌<◌, pos, is_positive, Text, [], ◌∷◌, ◌++◌, false, some, ◌≡◌, refl, arith, length,
  All, inl, text_eq, text_eq_sound, text_eq_refl,
}
use content_platform.GoStrings.{
  IsFreeOf, contains-IsFreeOf, byte_length-IsFreeOf, byte_length-append,
}
use content_platform.Domain.Validation.{byte_length, rune_width}
use content_platform.Errors.{ok}
use content_platform.Token.Decimal.{int64_cutoff, format_int}
use content_platform.Token.Decimal.Digits.{format_int-All, length-format_int}
use content_platform.Token.Base64.{Bytes, encode}
use content_platform.Token.Base64.RoundTrip.{
  IsByte, IsSymbol, encode-IsSymbol, decode-encode, decode-IsBytes,
}
use content_platform.Token.Refresh.{canonical_secret, decode_refresh_secret, format}

abbrev pub IsSecret : Bytes → Type 0
IsSecret raw = All IsByte raw × (length raw ≡ 32)

pub symbols-IsFreeOf : (s : Text) → All IsSymbol s → All (IsFreeOf b'.') s × All (IsFreeOf b'=') s
symbols-IsFreeOf [] h = (tt, tt)
symbols-IsFreeOf (c ∷ s) ((l, d, e, m), hs) =
    (((d, m), (symbols-IsFreeOf s hs).0), ((e, m), (symbols-IsFreeOf s hs).1))

-- Texts of 43 characters stand for 32 bytes.
length-encode : (raw : Bytes) → length (encode raw) ≤ length raw + length raw + 4
unfolding encode
length-encode [] = omega arith
length-encode (a ∷ []) = omega arith
length-encode (a ∷ b ∷ []) = omega arith
length-encode (a ∷ b ∷ c ∷ rest) = omega (arith, length-encode rest)

encode-ne-nil : (raw : Bytes) → length raw ≡ 32 → text_eq (encode raw) [] ≡ false
unfolding encode text_eq
encode-ne-nil [] h = absurd (omega arith)
encode-ne-nil (a ∷ []) h = refl
encode-ne-nil (a ∷ b ∷ []) h = refl
encode-ne-nil (a ∷ b ∷ c ∷ rest) h = refl

pub decode_refresh_secret-encode :
    (raw : Bytes) → IsSecret raw → decode_refresh_secret (encode raw) ≡ some raw
unfolding decode_refresh_secret canonical_secret
decode_refresh_secret-encode raw (h, k) =
    rw
      (
        encode-ne-nil raw k,
        contains-IsFreeOf b'=' (encode raw) (symbols-IsFreeOf _ (encode-IsSymbol raw)).1,
        decode-encode raw h,
        text_eq_refl (encode raw),
        k,
      )
      refl

pub decode_refresh_secret_sound :
    (s : Text) (raw : Bytes) → decode_refresh_secret s ≡ some raw → IsSecret raw × (s ≡ encode raw)
unfolding decode_refresh_secret canonical_secret
decode_refresh_secret_sound s raw h =
    ground (arith, decode-IsBytes s raw, text_eq_sound (encode raw) s)

-- The token of a session identifier and a secret.
abbrev pub token_text : ℕ → Bytes → Text
token_text n raw = format_int (pos n) ++ (b'.' ∷ encode raw)

byte_length-cons : (s : Text) → byte_length (b'.' ∷ s) ≡ 1 + byte_length s
unfolding byte_length rune_width
byte_length-cons s = refl

pub token_text-length :
    (n : ℕ) (raw : Bytes)
    → 0 < n
    → n < int64_cutoff
    → IsSecret raw
    → (0 < byte_length (token_text n raw)) × (byte_length (token_text n raw) ≤ 256)
token_text-length n raw h k s =
    let d =
      byte_length-IsFreeOf b'.' (format_int (pos n))
        (format_int-All b'.' n (inl (omega arith)) h) in
    let e =
      byte_length-IsFreeOf b'.' (encode raw)
        (symbols-IsFreeOf (encode raw) (encode-IsSymbol raw)).0 in
    omega (
      arith,
      byte_length-append (format_int (pos n)) (b'.' ∷ encode raw),
      byte_length-cons (encode raw),
      d,
      e,
      length-format_int n k,
      length-encode raw,
      s.1,
    )

pub format-token_text :
    (n : ℕ) (raw : Bytes)
    → 0 < n
    → n < int64_cutoff
    → IsSecret raw
    → format (pos n) (encode raw) ≡ ok (token_text n raw)
unfolding format is_positive
format-token_text n raw h k s =
    let len = (token_text-length n raw h k s).1 in
    ground (arith, decode_refresh_secret-encode raw s, len)
