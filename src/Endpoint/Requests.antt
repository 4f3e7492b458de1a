-- ===== src/Endpoint/Requests.antt =====
-- The request structs of identity/handler/dto.go as package reflect shows them, and Handler.decode of
-- identity/handler/handler.go.
use content_platform.Prelude.{Text, codes, List, [], ◌∷◌, true, false, Option, some}
use content_platform.Http.{Request}
use content_platform.Httpx.Decode.{StructField, BodyLibrary, decode_json, invalid_json}
use content_platform.Endpoint.Payload.{
  RegisterRequest, LoginRequest, RefreshRequest, UpdateMeRequest, ChangeStatusRequest,
}
use content_platform.Endpoint.Reply.{HandlerFailure, application_failure, max_request_body_bytes}

-- An exported field with a json tag.
abbrev field : Text → Text → StructField
field name tag = record { name = name; exported = true; anonymous = false; tag = some tag }

abbrev pub register_fields : List StructField
register_fields =
    field (codes "Email") (codes "email")
    ∷ field (codes "Password") (codes "password")
    ∷ field (codes "DisplayName") (codes "display_name")
    ∷ []

abbrev pub login_fields : List StructField
login_fields =
    field (codes "Email") (codes "email") ∷ field (codes "Password") (codes "password") ∷ []

abbrev pub refresh_fields : List StructField
refresh_fields = field (codes "RefreshToken") (codes "refresh_token") ∷ []

abbrev pub update_me_fields : List StructField
update_me_fields =
    field (codes "DisplayName") (codes "display_name") ∷ field (codes "Bio") (codes "bio") ∷ []

abbrev pub change_status_fields : List StructField
change_status_fields =
    field (codes "Status") (codes "status")
    ∷ field (codes "Reason") (codes "reason")
    ∷ field (codes "MutedUntil") (codes "muted_until")
    ∷ []

-- The packages encoding/json and mime, with `Decode` into each request struct.
pub record RequestLibrary : Type 0 where
  pub body : BodyLibrary
  pub register_request : Text → Option RegisterRequest
  pub login_request : Text → Option LoginRequest
  pub refresh_request : Text → Option RefreshRequest
  pub update_me_request : Text → Option UpdateMeRequest
  pub change_status_request : Text → Option ChangeStatusRequest

-- Handler.decode: where it is `none`, the error has been written.
unfoldable pub decode :
    {A : Type 0} → RequestLibrary → List StructField → (Text → Option A) → Request → Option A
decode library fields decode_object r =
    decode_json library.body (some fields) decode_object max_request_body_bytes r

-- The error that Handler.decode writes.
unfoldable pub decode_failure : HandlerFailure
decode_failure = application_failure invalid_json
