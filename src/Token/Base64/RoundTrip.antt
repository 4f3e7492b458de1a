-- ===== src/Token/Base64/RoundTrip.antt =====
-- base64.RawURLEncoding: what encode writes is URL text without padding, and decode reads it back.
use content_platform.Prelude.{
  ℕ, ◌+◌, ◌*◌, ◌/◌, ◌%◌, ◌≤◌, ◌<◌, Text, [], ◌∷◌, Option, none, some, ◌≡◌, refl, subst, arith, All,
  ◌≢◌,
}
use content_platform.Token.Base64.{
  Bytes, symbol, symbol_value, encode, join_two, join_three, join_four, decode_quanta,
  skip_newlines, decode,
}

abbrev pub IsByte : ℕ → Type 0
IsByte b = b < 256

-- A character of the alphabet: ASCII, and none of '\n', '\r', '.' and '='.
abbrev pub IsSymbol : ℕ → Type 0
IsSymbol c = (45 ≤ c) × (c ≢ 46) × (c ≢ 61) × (c < 128)

symbol-IsSymbol : (v : ℕ) → IsSymbol (symbol v)
unfolding symbol
symbol-IsSymbol v = ground arith

symbol_value-symbol : (v : ℕ) → v < 64 → symbol_value (symbol v) ≡ some v
unfolding symbol symbol_value
symbol_value-symbol v h = ground arith

pub encode-IsSymbol : (bs : Bytes) → All IsSymbol (encode bs)
unfolding encode
encode-IsSymbol [] = tt
encode-IsSymbol (a ∷ []) = (symbol-IsSymbol _, (symbol-IsSymbol _, tt))
encode-IsSymbol (a ∷ b ∷ []) = (symbol-IsSymbol _, (symbol-IsSymbol _, (symbol-IsSymbol _, tt)))
encode-IsSymbol (a ∷ b ∷ c ∷ rest) = (
  symbol-IsSymbol _,
  (symbol-IsSymbol _, (symbol-IsSymbol _, (symbol-IsSymbol _, encode-IsSymbol rest))),
)

skip_newlines-IsSymbol : (s : Text) → All IsSymbol s → skip_newlines s ≡ s
unfolding skip_newlines
skip_newlines-IsSymbol [] h = refl
skip_newlines-IsSymbol (c ∷ s) (h, hs) = ground (arith, skip_newlines-IsSymbol s hs)

join_two-symbols :
    (a : ℕ) → IsByte a → join_two (some (a / 4)) (some ((a % 4) * 16)) ≡ some (a ∷ [])
unfolding join_two
join_two-symbols a h = ground arith

join_three-symbols :
    (a b : ℕ)
    → IsByte a
    → IsByte b
    → join_three (some (a / 4)) (some ((a % 4) * 16 + b / 16)) (some ((b % 16) * 4))
      ≡ some (a ∷ b ∷ [])
unfolding join_three
join_three-symbols a b h k = ground arith

join_four-symbols :
    (a b c : ℕ) (rest : Bytes)
    → IsByte a
    → IsByte b
    → IsByte c
    → join_four
        (some (a / 4))
        (some ((a % 4) * 16 + b / 16))
        (some ((b % 16) * 4 + c / 64))
        (some (c % 64))
        (some rest)
      ≡ some (a ∷ b ∷ c ∷ rest)
unfolding join_four
join_four-symbols a b c rest h k l = ground arith

decode_quanta-encode : (bs : Bytes) → All IsByte bs → decode_quanta (encode bs) ≡ some bs
unfolding decode_quanta encode
decode_quanta-encode [] h = refl
decode_quanta-encode (a ∷ []) (h, _) =
    rw (symbol_value-symbol (a / 4) (omega arith), symbol_value-symbol ((a % 4) * 16) (omega arith))
      (join_two-symbols a h)
decode_quanta-encode (a ∷ b ∷ []) (h, (k, _)) =
    rw
      (
        symbol_value-symbol (a / 4) (omega arith),
        symbol_value-symbol ((a % 4) * 16 + b / 16) (omega arith),
        symbol_value-symbol ((b % 16) * 4) (omega arith),
      )
      (join_three-symbols a b h k)
decode_quanta-encode (a ∷ b ∷ c ∷ rest) (h, (k, (l, hs))) =
    rw
      (
        symbol_value-symbol (a / 4) (omega arith),
        symbol_value-symbol ((a % 4) * 16 + b / 16) (omega arith),
        symbol_value-symbol ((b % 16) * 4 + c / 64) (omega arith),
        symbol_value-symbol (c % 64) (omega arith),
        decode_quanta-encode rest hs,
      )
      (join_four-symbols a b c rest h k l)

-- Bytes are read back from their encoding.
pub decode-encode : (bs : Bytes) → All IsByte bs → decode (encode bs) ≡ some bs
unfolding decode
decode-encode bs h =
    rw (skip_newlines-IsSymbol (encode bs) (encode-IsSymbol bs)) (decode_quanta-encode bs h)

-- An absent value, or bytes.
abbrev IsBytes : Option Bytes → Type 0
IsBytes none = Unit
IsBytes (some bs) = All IsByte bs

abbrev IsSextet : Option ℕ → Type 0
IsSextet none = Unit
IsSextet (some v) = v < 64

symbol_value-IsSextet : (c : ℕ) → IsSextet (symbol_value c)
unfolding symbol_value
symbol_value-IsSextet c = ground arith

join_two-IsBytes : (p q : Option ℕ) → IsSextet p → IsSextet q → IsBytes (join_two p q)
unfolding join_two
join_two-IsBytes p q h k = ground arith

join_three-IsBytes :
    (p q r : Option ℕ) → IsSextet p → IsSextet q → IsSextet r → IsBytes (join_three p q r)
unfolding join_three
join_three-IsBytes p q r h k l = ground arith

join_four-IsBytes :
    (p q r t : Option ℕ) (rest : Option Bytes)
    → IsSextet p
    → IsSextet q
    → IsSextet r
    → IsSextet t
    → IsBytes rest
    → IsBytes (join_four p q r t rest)
unfolding join_four
join_four-IsBytes p q r t rest h k l m n = ground arith

decode_quanta-IsBytes : (s : Text) → IsBytes (decode_quanta s)
unfolding decode_quanta
decode_quanta-IsBytes [] = tt
decode_quanta-IsBytes (p ∷ []) = tt
decode_quanta-IsBytes (p ∷ q ∷ []) =
    join_two-IsBytes _ _ (symbol_value-IsSextet p) (symbol_value-IsSextet q)
decode_quanta-IsBytes (p ∷ q ∷ r ∷ []) =
    join_three-IsBytes _ _ _ (symbol_value-IsSextet p) (symbol_value-IsSextet q)
      (symbol_value-IsSextet r)
decode_quanta-IsBytes (p ∷ q ∷ r ∷ t ∷ rest) =
    join_four-IsBytes _ _ _ _ _ (symbol_value-IsSextet p) (symbol_value-IsSextet q)
      (symbol_value-IsSextet r) (symbol_value-IsSextet t) (decode_quanta-IsBytes rest)

-- What decode returns are bytes.
pub decode-IsBytes : (s : Text) (bs : Bytes) → decode s ≡ some bs → All IsByte bs
unfolding decode
decode-IsBytes s bs h = subst IsBytes h (decode_quanta-IsBytes (skip_newlines s))
