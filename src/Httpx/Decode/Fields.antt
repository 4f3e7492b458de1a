-- ===== src/Httpx/Decode/Fields.antt =====
-- The fields of a request object.
use content_platform.Prelude.{
  Text, List, [], ◌∷◌, true, false, Option, some, ◌≡◌, ◌↔◌, refl, arith, Option-cases, inl, inr,
}
use content_platform.Httpx.Decode.{
  StructField, StreamField, ObjectStream, member, accept_field, accept_fields, exact_json_fields,
  validate_exact_object_fields,
}

-- The fields have the names: strings, allowed, each one new, and each with a value.
abbrev pub AreNamed : List Text → List Text → List StreamField → List Text → Type 0
AreNamed allowed seen [] [] = Unit
AreNamed allowed seen (f ∷ fields) (name ∷ names) =
    (f.token ≡ some (some name))
    × (f.value_ok ≡ true)
    × (member name allowed ≡ true)
    × (member name seen ≡ false)
    × AreNamed allowed (name ∷ seen) fields names
AreNamed allowed seen [] (name ∷ names) = ⊥
AreNamed allowed seen (f ∷ fields) [] = ⊥

accept_field_sound :
    (allowed seen : List Text) (f : StreamField) (name : Text)
    → accept_field allowed seen f ≡ some name
    → (f.token ≡ some (some name))
      × (f.value_ok ≡ true)
      × (member name allowed ≡ true)
      × (member name seen ≡ false)
unfolding accept_field
accept_field_sound allowed seen f name h = ground arith

accept_field_complete :
    (allowed seen : List Text) (f : StreamField) (name : Text)
    → f.token ≡ some (some name)
    → f.value_ok ≡ true
    → member name allowed ≡ true
    → member name seen ≡ false
    → accept_field allowed seen f ≡ some name
unfolding accept_field
accept_field_complete allowed seen f name h k l m = ground arith

accept_fields_sound :
    (allowed seen : List Text) (fields : List StreamField)
    → accept_fields allowed seen fields ≡ true
    → (names : List Text) × AreNamed allowed seen fields names
unfolding accept_fields
accept_fields_sound allowed seen [] h = ([], tt)
accept_fields_sound allowed seen (f ∷ fields) h =
    elim (Option-cases (accept_field allowed seen f)) [
      | inl e ↦ absurd (ground (arith, e))
      | inr (name, e) ↦
          let (names, named) =
            accept_fields_sound allowed (name ∷ seen) fields (ground (arith, h, e)) in
          let (a, b, c, d) = accept_field_sound allowed seen f name e in
          (name ∷ names, (a, b, c, d, named))
    ]

accept_fields_complete :
    (allowed seen : List Text) (fields : List StreamField) (names : List Text)
    → AreNamed allowed seen fields names
    → accept_fields allowed seen fields ≡ true
unfolding accept_fields
accept_fields_complete allowed seen [] [] h = refl
accept_fields_complete allowed seen [] (name ∷ names) h = absurd h
accept_fields_complete allowed seen (f ∷ fields) [] h = absurd h
accept_fields_complete allowed seen (f ∷ fields) (name ∷ names) (a, b, c, d, h) = ground (
  arith,
  accept_field_complete allowed seen f name a b c d,
  accept_fields_complete allowed (name ∷ seen) fields names h,
)

-- A JSON object is accepted exactly when the destination has a set of field names, the decoder reads an
-- opening brace, then fields, a closing brace and the end of the body, and every field is a string
-- among those names, letter for letter, that no field before it has, with a value.
pub validate_exact_object_fields_iff :
    (stream : ObjectStream) (dst : Option (List StructField))
    → (validate_exact_object_fields stream dst ≡ true) ↔ (
        (allowed : List Text) × (names : List Text) × (exact_json_fields dst ≡ some allowed)
        × AreNamed allowed [] stream.fields names
        × (stream.opens ≡ true)
        × (stream.closes ≡ true)
        × (stream.ends ≡ true))
unfolding validate_exact_object_fields
validate_exact_object_fields_iff stream dst = (
  (λ h. elim (Option-cases (exact_json_fields dst)) [
    | inl e ↦ absurd (ground (arith, e))
    | inr (allowed, e) ↦
        let (names, named) = accept_fields_sound allowed [] stream.fields (ground (arith, h, e)) in
        (allowed, names, e, named, ground (arith, h, e), ground (arith, h, e), ground (arith, h, e))
  ]),
  (λ (allowed, names, e, named, opens, closes, ends).
      ground (
        arith,
        e,
        accept_fields_complete allowed [] stream.fields names named,
        opens,
        closes,
        ends,
      )),
)
