-- ===== src/Httpx/Response.antt =====
-- platform/httpx/response.go. encoding/json is a parameter: `marshal` of an envelope is its JSON, or
-- `none` where json.Marshal fails.
use content_platform.Prelude.{
  ℕ, Text, [], ◌∷◌, ◌++◌, codes, Bool, true, false, Option, none, some, text_eq, if◌then◌else◌,
}
use content_platform.Http.{Context, World, request_failed}
use content_platform.Httpx.Recorder.{write_header, write, set_header}
use content_platform.AppError.{
  Kind, AppError, Failure, new_error, kind_text, from, internal_kind, invalid_argument,
  unauthenticated, permission_denied, not_found_kind, method_not_allowed, conflict, rate_limited,
  dependency_unavailable, other_kind,
}

-- successEnvelope and errorEnvelope
pub data Envelope (D : Type 0) : Type 0 where
  success : (payload : D) (request_id : Text) → Envelope D
  failure : (code message : Text) (details : Option D) (request_id : Text) → Envelope D

abbrev pub content_type_json : Text
content_type_json = codes "application/json; charset=utf-8"

abbrev pub internal_message : Text
internal_message = codes "internal server error"

-- What writeJSON sends where json.Marshal fails.
abbrev pub fallback_body : Text
fallback_body =
    codes
      "{\"error\":{\"code\":\"internal_error\",\"message\":\"internal server error\"},\"meta\":{\"request_id\":\"\"}}"

-- statusForKind
unfoldable pub status_for_kind : Kind → Option ℕ
status_for_kind invalid_argument = some 400
status_for_kind unauthenticated = some 401
status_for_kind permission_denied = some 403
status_for_kind not_found_kind = some 404
status_for_kind method_not_allowed = some 405
status_for_kind conflict = some 409
status_for_kind rate_limited = some 429
status_for_kind internal_kind = some 500
status_for_kind dependency_unavailable = some 503
status_for_kind (other_kind t) = none

-- The error that stands for one that may not be shown.
unfoldable pub hidden_error : {D : Type 0} → AppError D
unfolding new_error
hidden_error = new_error internal_kind (codes "internal_error") internal_message

-- The status, the error to show, and whether the log gets an entry, as WriteError finds them.
unfoldable pub shown_of_status : {D : Type 0} → AppError D → Option ℕ → ℕ × AppError D × Bool
unfolding hidden_error
shown_of_status e none = (500, hidden_error, true)
shown_of_status e (some status) = elim e.kind [
  | internal_kind ↦ (status, e, e.has_cause)
  | _ ↦ (status, e, false)
]

unfoldable pub shown : {D : Type 0} → Option (AppError D) → ℕ × AppError D × Bool
unfolding hidden_error
shown none = (500, hidden_error, true)
shown (some e) = shown_of_status e (status_for_kind e.kind)

unfoldable pub message_of : {D : Type 0} → AppError D → Text
message_of e = elim e.kind [ internal_kind ↦ internal_message | _ ↦ e.message ]

unfoldable pub code_of : {D : Type 0} → AppError D → Text
code_of e = if text_eq e.code [] then kind_text e.kind else e.code

-- logInternalError
unfoldable pub log_internal_error : {S : Type 0} → Bool → Context → World S → World S
log_internal_error logger ctx w = record w {
  log = if logger then w.log ++ (request_failed ctx.request_id ∷ []) else w.log;
}

-- The status line, the header and the body of writeJSON, where json.Marshal returned `encoded`.
unfoldable pub send : {S : Type 0} → ℕ → Option Text → World S → World S
send status encoded w =
    let body : Text = elim encoded [ none ↦ fallback_body | some json ↦ json ] in
    let code : ℕ = elim encoded [ none ↦ 500 | some _ ↦ status ] in
    record w {
      writer =
          write (body ++ (10 ∷ []))
            (write_header code (set_header (codes "Content-Type") content_type_json w.writer));
    }

module _ {S D : Type 0} (marshal : Envelope D → Option Text) where
  -- writeJSON
  unfoldable pub write_json : ℕ → Envelope D → World S → World S
  write_json status payload w = send status (marshal payload) w

  -- WriteData
  unfoldable pub write_data : Context → ℕ → D → World S → World S
  unfolding write_json
  write_data ctx status payload w = write_json status (success payload ctx.request_id) w

  -- WriteError; `logger` is whether there is one.
  unfoldable pub write_error : Context → Bool → Failure D → World S → World S
  unfolding write_json
  write_error ctx logger e w =
      let (status, show, logged) = shown (from e) in
      write_json status (failure (code_of show) (message_of show) show.details ctx.request_id)
        (log_internal_error (elim logged [ true ↦ logger | false ↦ false ]) ctx w)
