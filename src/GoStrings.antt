-- ===== src/GoStrings.antt =====
-- The part of Go's package strings that the adapters and handlers use, on texts as code points. The
-- separators searched for are ASCII, so a search by code point is the search by byte.
use content_platform.Prelude.{
  ℕ, suc, ◌+◌, ◌-◌, ◌/◌, ◌%◌, ltb, length-append, ◌<◌, Text, List, [], ◌∷◌, ◌++◌, Bool, false, ◌||◌,
  ◌≡◌, refl, arith, ◌==◌, if◌then◌else◌, length, All, ◌≢◌,
}
use content_platform.Domain.Validation.{byte_length, rune_width}

-- `strings.Contains(s, sep)` of one ASCII character.
unfoldable pub contains : ℕ → Text → Bool
contains sep [] = false
contains sep (c ∷ s) = (c == sep) || contains sep s

-- `strings.Count(s, sep)` of one ASCII character.
unfoldable pub count : ℕ → Text → ℕ
count sep [] = 0
count sep (c ∷ s) = if c == sep then suc (count sep s) else count sep s

-- `strings.Cut(s, sep)` of one ASCII character: what stands before and behind the first one.
unfoldable pub cut : ℕ → Text → Text × Text
cut sep [] = ([], [])
cut sep (c ∷ s) = if c == sep then ([], s) else (c ∷ (cut sep s).0, (cut sep s).1)

-- The bytes of a code point in UTF-8, and of a byte that is no part of valid UTF-8.
unfoldable pub rune_bytes : ℕ → List ℕ
rune_bytes r =
    if ltb r 0x80
    then r ∷ []
    else if ltb r 0x800
    then (0xC0 + r / 64) ∷ (0x80 + r % 64) ∷ []
    else if ltb r 0x10000
    then (0xE0 + r / 4096) ∷ (0x80 + r / 64 % 64) ∷ (0x80 + r % 64) ∷ []
    else if ltb r 0x110000
    then (0xF0 + r / 262144) ∷ (0x80 + r / 4096 % 64) ∷ (0x80 + r / 64 % 64) ∷ (0x80 + r % 64) ∷ []
    else (r - 0x110000) ∷ []

-- `[]byte(s)`
unfoldable pub bytes : Text → List ℕ
unfolding rune_bytes
bytes [] = []
bytes (r ∷ s) = rune_bytes r ++ bytes s

pub length-bytes : (s : Text) → length (bytes s) ≡ byte_length s
unfolding bytes byte_length rune_bytes rune_width
length-bytes [] = refl
length-bytes (r ∷ s) = ground (arith, length-append (rune_bytes r) (bytes s), length-bytes s)

-- ASCII, and not the character `sep`.
abbrev pub IsFreeOf : ℕ → ℕ → Type 0
IsFreeOf sep c = (c ≢ sep) × (c < 128)

pub contains-IsFreeOf : (sep : ℕ) (s : Text) → All (IsFreeOf sep) s → contains sep s ≡ false
unfolding contains
contains-IsFreeOf sep [] h = refl
contains-IsFreeOf sep (c ∷ s) (h, hs) = ground (arith, contains-IsFreeOf sep s hs)

pub byte_length-IsFreeOf : (sep : ℕ) (s : Text) → All (IsFreeOf sep) s → byte_length s ≡ length s
unfolding byte_length rune_width
byte_length-IsFreeOf sep [] h = refl
byte_length-IsFreeOf sep (c ∷ s) (h, hs) = ground (arith, byte_length-IsFreeOf sep s hs)

pub byte_length-append : (s t : Text) → byte_length (s ++ t) ≡ byte_length s + byte_length t
unfolding byte_length
byte_length-append [] t = omega arith
byte_length-append (c ∷ s) t = omega (arith, byte_length-append s t)

pub count-IsFreeOf : (sep : ℕ) (s : Text) → All (IsFreeOf sep) s → count sep s ≡ 0
unfolding count
count-IsFreeOf sep [] h = refl
count-IsFreeOf sep (c ∷ s) (h, hs) = ground (arith, count-IsFreeOf sep s hs)

-- One separator between texts without it is counted once, and cuts them apart.
pub count-joined :
    (sep : ℕ) (s t : Text)
    → All (IsFreeOf sep) s
    → All (IsFreeOf sep) t
    → count sep (s ++ (sep ∷ t)) ≡ 1
unfolding count
count-joined sep [] t h k = ground (arith, count-IsFreeOf sep t k)
count-joined sep (c ∷ s) t (h, hs) k = ground (arith, count-joined sep s t hs k)

pub cut-joined : (sep : ℕ) (s t : Text) → All (IsFreeOf sep) s → cut sep (s ++ (sep ∷ t)) ≡ (s, t)
unfolding cut
cut-joined sep [] t h = ground arith
cut-joined sep (c ∷ s) t (h, hs) = ground (arith, cut-joined sep s t hs)

-- A text that has the separator is what `cut` returns, with the separator between.
pub cut_sound : (sep : ℕ) (s : Text) → count sep s ≢ 0 → s ≡ (cut sep s).0 ++ (sep ∷ (cut sep s).1)
unfolding count cut
cut_sound sep [] h = absurd (h refl)
cut_sound sep (c ∷ s) h = ground (arith, cut_sound sep s)
