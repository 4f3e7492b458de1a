-- ===== src/Token/Refresh/RoundTrip.antt =====
-- Refresh tokens: what Format writes, Parse reads back, and it accepts nothing else.
use content_platform.Prelude.{
  ℕ, ◌<◌, ℤ, pos, Text, ◌∷◌, ◌++◌, some, ◌≡◌, ◌≢◌, ◌↔◌, refl, ap, ◌∙◌, arith, Option-cases, inl,
  inr,
}
use content_platform.GoStrings.{count, cut, count-joined, cut-joined, cut_sound}
use content_platform.Errors.{Result, ok}
use content_platform.Ports.{Digest}
use content_platform.Token.Decimal.{int64_cutoff, format_int, parse_positive_id}
use content_platform.Token.Decimal.Digits.{format_int-All}
use content_platform.Token.Decimal.RoundTrip.{parse_positive_id_iff}
use content_platform.Token.Base64.{Bytes, encode}
use content_platform.Token.Base64.RoundTrip.{encode-IsSymbol}
use content_platform.Token.Refresh.{decode_refresh_secret, format, generate, parse_parts, parse}
use content_platform.Token.Refresh.TokenText.{
  IsSecret, symbols-IsFreeOf, decode_refresh_secret-encode, decode_refresh_secret_sound, token_text,
  token_text-length, format-token_text,
}

generated_secret :
    (raw : Bytes) (e : Digest) (secret : Text) (d : Digest)
    → ◌≡◌ {A = Result (Text × Digest)} (ok (encode raw, e)) (ok (secret, d))
    → secret ≡ encode raw
generated_secret raw e secret d h = cc

generated_digest :
    (raw : Bytes) (e : Digest) (secret : Text) (d : Digest)
    → ◌≡◌ {A = Result (Text × Digest)} (ok (encode raw, e)) (ok (secret, d))
    → d ≡ e
generated_digest raw e secret d h = cc

module _ (sha256 : Bytes → Digest) where
  parse_parts-token :
      (n : ℕ) (raw : Bytes)
      → 0 < n
      → n < int64_cutoff
      → IsSecret raw
      → parse_parts sha256 (format_int (pos n)) (encode raw) ≡ ok (pos n, sha256 raw)
  unfolding parse_parts
  parse_parts-token n raw h k s = ground (
    arith,
    (parse_positive_id_iff (format_int (pos n)) (pos n)).1 (n, refl, refl, h, k),
    decode_refresh_secret-encode raw s,
  )

  pub parse-token_text :
      (n : ℕ) (raw : Bytes)
      → 0 < n
      → n < int64_cutoff
      → IsSecret raw
      → parse sha256 (token_text n raw) ≡ ok (pos n, sha256 raw)
  unfolding parse
  parse-token_text n raw h k s =
      let free = format_int-All b'.' n (inl (omega arith)) h in
      let cut_e = cut-joined b'.' (format_int (pos n)) (encode raw) free in
      let count_e =
        count-joined b'.' (format_int (pos n)) (encode raw) free
          (symbols-IsFreeOf (encode raw) (encode-IsSymbol raw)).0 in
      let len = token_text-length n raw h k s in
      rw (cut_e, count_e) (ground (arith, len.0, len.1, parse_parts-token n raw h k s))

  parse_parts_sound :
      (s t : Text) (v : ℤ) (d : Digest)
      → parse_parts sha256 s t ≡ ok (v, d)
      → (n : ℕ) × (raw : Bytes) × (v ≡ pos n)
        × (d ≡ sha256 raw)
        × (0 < n)
        × (n < int64_cutoff)
        × IsSecret raw
        × (s ≡ format_int (pos n))
        × (t ≡ encode raw)
  unfolding parse_parts
  parse_parts_sound s t v d h = elim (Option-cases (parse_positive_id s)) [
    | inl e ↦ absurd (ground (arith, e))
    | inr (id, e) ↦ elim (Option-cases (decode_refresh_secret t)) [
      | inl f ↦ absurd (ground (arith, e, f))
      | inr (raw, f) ↦
          let (n, id_e, s_e, lo, hi) = (parse_positive_id_iff s id).0 e in
          let (secret, t_e) = decode_refresh_secret_sound t raw f in
          (n, raw, ground (arith, e, f, id_e), ground (arith, e, f), lo, hi, secret, s_e, t_e)
    ]
  ]

  parse-parts :
      (s : Text) (v : ℤ) (d : Digest)
      → parse sha256 s ≡ ok (v, d)
      → (count b'.' s ≢ 0) × (parse_parts sha256 (cut b'.' s).0 (cut b'.' s).1 ≡ ok (v, d))
  unfolding parse
  parse-parts s v d h = (ground arith, ground arith)

  parse_sound :
      (s : Text) (v : ℤ) (d : Digest)
      → parse sha256 s ≡ ok (v, d)
      → (n : ℕ) × (raw : Bytes) × (v ≡ pos n)
        × (d ≡ sha256 raw)
        × (0 < n)
        × (n < int64_cutoff)
        × IsSecret raw
        × (s ≡ token_text n raw)
  parse_sound s v d h =
      let (some_dot, parts) = parse-parts s v d h in
      let (n, raw, v_e, d_e, lo, hi, secret, left, right) =
        parse_parts_sound (cut b'.' s).0 (cut b'.' s).1 v d parts in
      (
        n,
        raw,
        v_e,
        d_e,
        lo,
        hi,
        secret,
        cut_sound b'.' s some_dot
            ∙ ap (λ (t : Text). t ++ (b'.' ∷ (cut b'.' s).1)) left
            ∙ ap (λ (t : Text). format_int (pos n) ++ (b'.' ∷ t)) right,
      )

  -- Parse accepts exactly the texts that Format writes: it returns `v` and `d` for `s` when `s` is the
  -- decimal text of an identifier 0 < n < 2^63, a dot and the encoding of 32 bytes, `v` is that
  -- identifier and `d` the SHA-256 of those bytes, and only then.
  pub parse_iff :
      (s : Text) (v : ℤ) (d : Digest)
      → (parse sha256 s ≡ ok (v, d)) ↔ (
          (n : ℕ) × (raw : Bytes) × (v ≡ pos n)
          × (d ≡ sha256 raw)
          × (0 < n)
          × (n < int64_cutoff)
          × IsSecret raw
          × (s ≡ token_text n raw))
  parse_iff s v d = (
    parse_sound s v d,
    (λ (n, raw, v_e, d_e, lo, hi, secret, s_e).
        rw (v_e, d_e, s_e) (parse-token_text n raw lo hi secret)),
  )

  -- A secret that Generate draws and a session identifier that the database gave, a positive int64,
  -- make a token: Format succeeds, its token is the identifier's decimal text, a dot and the secret,
  -- and Parse returns the identifier and the digest that Generate returned with the secret.
  pub parse-format-generate :
      (raw : Bytes) (n : ℕ) (secret : Text) (d : Digest)
      → IsSecret raw
      → 0 < n
      → n < int64_cutoff
      → generate sha256 (some raw) ≡ ok (secret, d)
      → (token : Text) × (format (pos n) secret ≡ ok token) × (parse sha256 token ≡ ok (pos n, d))
  unfolding generate
  parse-format-generate raw n secret d h lo hi g = (
    token_text n raw,
    rw (generated_secret raw (sha256 raw) secret d g) (format-token_text n raw lo hi h),
    rw (generated_digest raw (sha256 raw) secret d g) (parse-token_text n raw lo hi h),
  )
