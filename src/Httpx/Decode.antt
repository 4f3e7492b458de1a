-- ===== src/Httpx/Decode.antt =====
-- platform/httpx/decode.go. The packages encoding/json and mime are parameters: what a decoder returns
-- for the body, call by call.
use content_platform.Prelude.{
  ℕ, Text, List, [], ◌∷◌, codes, Bool, true, false, not, ◌&&◌, ◌||◌, Option, none, some, ltb, ◌==◌,
  text_eq, if◌then◌else◌,
}
use content_platform.Domain.Validation.{byte_length, trim_space}
use content_platform.GoStrings.{cut}
use content_platform.Http.{Request}
use content_platform.AppError.{AppError, wrap_error, invalid_argument}
use content_platform.Authn.Bearer.{single_header_value}
pub mod Fields

-- A field of the destination's struct type, as package reflect shows it.
pub record StructField : Type 0 where
  pub name : Text
  pub exported : Bool
  pub anonymous : Bool
  -- the value of its json tag
  pub tag : Option Text

-- A round of the loop of validateExactObjectFields: `token` is what Token returns (`none` for an error,
-- `some none` for a token that is no string), `value_ok` whether Decode then succeeds.
pub record StreamField : Type 0 where
  pub token : Option (Option Text)
  pub value_ok : Bool

-- What a decoder of an object returns: whether its first token opens an object, its fields, whether
-- the token behind them closes the object, and whether nothing follows.
pub record ObjectStream : Type 0 where
  pub opens : Bool
  pub fields : List StreamField
  pub closes : Bool
  pub ends : Bool

pub record BodyLibrary : Type 0 where
  -- `mime.ParseMediaType`
  pub parse_media_type : Text → Option Text
  -- the first JSON value of a body, and whether io.EOF follows
  pub first_value : Text → Option (Text × Bool)
  pub object_stream : Text → ObjectStream

unfoldable pub member : Text → List Text → Bool
member name [] = false
member name (other ∷ names) = text_eq name other || member name names

-- The name of a field in JSON; `none` for one that is passed over.
unfoldable pub json_name : StructField → Option Text
json_name f = elim f.tag [
  | none ↦ some f.name
  | some tag ↦
      let name = (cut b',' tag).0 in
      if text_eq name (codes "-") then none else if text_eq name [] then some f.name else some name
]

unfoldable pub add_name : Option Text → List Text → Option (List Text)
unfolding member
add_name none names = some names
add_name (some name) names = if member name names then none else some (name ∷ names)

unfoldable pub add_field : StructField → List Text → Option (List Text)
unfolding add_name json_name
add_field f names =
    if not f.exported
    then some names
    else if f.anonymous
    then none
    else add_name (json_name f) names

-- The loop of exactJSONFields over the fields.
unfoldable pub collect_fields : List StructField → List Text → Option (List Text)
collect_fields [] names = some names
collect_fields (f ∷ fields) names = elim (add_field f names) [
  | none ↦ none
  | some more ↦ collect_fields fields more
]

-- exactJSONFields: `none` for a destination that is no pointer to a struct.
unfoldable pub exact_json_fields : Option (List StructField) → Option (List Text)
exact_json_fields none = none
exact_json_fields (some fields) = collect_fields fields []

-- The name that a round of the loop adds to those seen.
unfoldable pub accept_field : List Text → List Text → StreamField → Option Text
unfolding member
accept_field allowed seen f = elim f.token [
  | none ↦ none
  | some none ↦ none
  | some (some name) ↦
      if not (member name allowed) || member name seen || not f.value_ok then none else some name
]

-- The loop of validateExactObjectFields.
unfoldable pub accept_fields : List Text → List Text → List StreamField → Bool
accept_fields allowed seen [] = true
accept_fields allowed seen (f ∷ fields) = elim (accept_field allowed seen f) [
  | none ↦ false
  | some name ↦ accept_fields allowed (name ∷ seen) fields
]

-- validateExactObjectFields
unfoldable pub validate_exact_object_fields : ObjectStream → Option (List StructField) → Bool
validate_exact_object_fields stream dst = elim (exact_json_fields dst) [
  | none ↦ false
  | some allowed ↦
      stream.opens && accept_fields allowed [] stream.fields && stream.closes && stream.ends
]

-- invalidJSON
unfoldable pub invalid_json : {D : Type 0} → AppError D
unfolding wrap_error
invalid_json =
    wrap_error invalid_argument (codes "invalid_request") (codes "request body is invalid")

-- `len(trimmed) == 0 || trimmed[0] != '{'`
unfoldable pub starts_object : Text → Bool
starts_object [] = false
starts_object (c ∷ s) = c == b'{'

-- `singleHeaderValue(r.Header, "Content-Type")` and the test of its media type
unfoldable pub has_json_type : BodyLibrary → Request → Bool
has_json_type library r = elim (single_header_value r.header (codes "Content-Type")) [
  | none ↦ false
  | some content_type ↦ elim (library.parse_media_type content_type) [
    | none ↦ false
    | some media_type ↦ text_eq media_type (codes "application/json")
  ]
]

-- The only JSON value of the body, where that is an object. MaxBytesReader fails where the body is
-- longer than the bound, before the decoder has met its end.
unfoldable pub only_object : BodyLibrary → ℕ → Text → Option Text
only_object library max_bytes body = elim (library.first_value body) [
  | none ↦ none
  | some (raw, ends) ↦
      if ltb max_bytes (byte_length body) || not ends || not (starts_object (trim_space raw))
      then none
      else some raw
]

-- DecodeJSON: `decode_object` is `Decode(dst)` of a decoder that disallows unknown fields, and `none` is
-- the error of invalidJSON.
unfoldable pub decode_json :
    {A : Type 0}
    → BodyLibrary
    → Option (List StructField)
    → (Text → Option A)
    → ℕ
    → Request
    → Option A
unfolding only_object
decode_json library dst decode_object max_bytes r =
    if not (has_json_type library r) then none else elim (only_object library max_bytes r.body) [
      | none ↦ none
      | some raw ↦
          if validate_exact_object_fields (library.object_stream raw) dst
          then decode_object raw
          else none
    ]
