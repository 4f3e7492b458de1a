-- ===== src/Token/Base64.antt =====
-- The part of Go's package encoding/base64 that infra/token uses: base64.RawURLEncoding, with
-- Strict where it decodes. The round trip is in the module below this one.
use content_platform.Prelude.{
  ℕ, suc, ◌+◌, ◌-◌, ◌*◌, ◌/◌, ◌%◌, Text, List, [], ◌∷◌, Bool, true, false, ◌&&◌, ◌||◌, Option, none,
  some, ltb, leb, ◌==◌, if◌then◌else◌,
}
pub mod RoundTrip

abbrev pub Bytes : Type 0
Bytes = List ℕ

-- The character of a value below 64.
unfoldable pub symbol : ℕ → ℕ
symbol v =
    if ltb v 26
    then b'A' + v
    else if ltb v 52
    then b'a' + (v - 26)
    else if ltb v 62
    then b'0' + (v - 52)
    else if v == 62
    then b'-'
    else b'_'

-- decodeMap
unfoldable pub symbol_value : ℕ → Option ℕ
symbol_value c =
    if leb b'A' c && leb c b'Z'
    then some (c - b'A')
    else if leb b'a' c && leb c b'z'
    then some (c - b'a' + 26)
    else if leb b'0' c && leb c b'9'
    then some (c - b'0' + 52)
    else if c == b'-'
    then some 62
    else if c == b'_'
    then some 63
    else none

-- `EncodeToString`: three bytes make four characters, and the last one or two bytes two or three.
unfoldable pub encode : Bytes → Text
encode [] = []
encode (a ∷ []) = symbol (a / 4) ∷ symbol ((a % 4) * 16) ∷ []
encode (a ∷ b ∷ []) = symbol (a / 4) ∷ symbol ((a % 4) * 16 + b / 16) ∷ symbol ((b % 16) * 4) ∷ []
encode (a ∷ b ∷ c ∷ rest) =
    symbol (a / 4)
    ∷ symbol ((a % 4) * 16 + b / 16)
    ∷ symbol ((b % 16) * 4 + c / 64)
    ∷ symbol (c % 64)
    ∷ encode rest

-- What decodeQuantum stores for two, three and four characters; Strict refuses bits that are left
-- over and not zero.
unfoldable pub join_two : Option ℕ → Option ℕ → Option Bytes
join_two (some p) (some q) = if q % 16 == 0 then some ((p * 4 + q / 16) ∷ []) else none
join_two _ _ = none

unfoldable pub join_three : Option ℕ → Option ℕ → Option ℕ → Option Bytes
join_three (some p) (some q) (some r) =
    if r % 4 == 0 then some ((p * 4 + q / 16) ∷ (q % 16 * 16 + r / 4) ∷ []) else none
join_three _ _ _ = none

unfoldable pub join_four : Option ℕ → Option ℕ → Option ℕ → Option ℕ → Option Bytes → Option Bytes
join_four (some p) (some q) (some r) (some t) (some rest) =
    some ((p * 4 + q / 16) ∷ (q % 16 * 16 + r / 4) ∷ (r % 4 * 64 + t) ∷ rest)
join_four _ _ _ _ _ = none

unfoldable pub decode_quanta : Text → Option Bytes
decode_quanta [] = some []
decode_quanta (p ∷ []) = none
decode_quanta (p ∷ q ∷ []) = join_two (symbol_value p) (symbol_value q)
decode_quanta (p ∷ q ∷ r ∷ []) = join_three (symbol_value p) (symbol_value q) (symbol_value r)
decode_quanta (p ∷ q ∷ r ∷ t ∷ rest) =
    join_four (symbol_value p) (symbol_value q) (symbol_value r) (symbol_value t)
      (decode_quanta rest)

-- decodeQuantum passes over '\n' and '\r' wherever they stand.
unfoldable pub skip_newlines : Text → Text
skip_newlines [] = []
skip_newlines (c ∷ s) = if (c == 10) || (c == 13) then skip_newlines s else c ∷ skip_newlines s

-- `Strict().DecodeString(s)`
unfoldable pub decode : Text → Option Bytes
decode s = decode_quanta (skip_newlines s)
