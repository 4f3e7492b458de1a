-- ===== src/Endpoint/Auth.antt =====
-- identity/handler/auth.go: Register, Login, Logout and Refresh. `available` is Handler.available.
use content_platform.Prelude.{ℕ, Bool, true, not, none, some, if◌then◌else◌}
use content_platform.Errors.{Result, ok, err}
use content_platform.Domain.Validation.{TextRules}
use content_platform.Database.{Store, Environment}
use content_platform.Authn.{Principal}
use content_platform.Http.{Request}
use content_platform.Service.{Service}
use content_platform.Service.Account.{register, logout}
use content_platform.Service.Login.{login}
use content_platform.Service.Refresh.{refresh}
use content_platform.Endpoint.Payload.{
  Payload, user_payload, login_payload, refresh_payload, logged_out_payload, RegisterRequest,
  LoginRequest, RefreshRequest, new_user_response, new_login_response, new_refresh_response,
}
use content_platform.Endpoint.Reply.{
  Reply, data_reply, error_reply, service_failure, principal, internal_handler_error,
}
use content_platform.Endpoint.Requests.{
  RequestLibrary, decode, decode_failure, register_fields, login_fields, refresh_fields,
}

-- `if err != nil { h.writeError(…); return }`, then WriteData.
unfoldable pub answer : {A : Type 0} → ℕ → (A → Payload) → Result A × Store → Reply × Store
answer status payload (ok a, s) = (data_reply status (payload a), s)
answer status payload (err e, s) = (error_reply (service_failure e), s)

module _ (env : Environment) (rules : TextRules) (service : Service) (library : RequestLibrary)
    (available : Bool) where
  unfoldable pub call_register : RegisterRequest → Store → Reply × Store
  unfolding answer
  call_register q s =
      answer 201 (λ u. user_payload (new_user_response u))
        (register env rules service
          (record { email = q.email; password = q.password; display_name = q.display_name }) s)

  -- Handler.Register
  unfoldable pub handle_register : Request → Store → Reply × Store
  handle_register r s =
      if not available
      then (error_reply internal_handler_error, s)
      else elim (decode library register_fields library.register_request r) [
        | none ↦ (error_reply decode_failure, s)
        | some q ↦ call_register q s
      ]

  unfoldable pub call_login : Request → LoginRequest → Store → Reply × Store
  unfolding answer
  call_login r q s =
      answer 200 (λ l. login_payload (new_login_response l))
        (login env rules service
          (record { email = q.email; password = q.password; request_id = r.context.request_id }) s)

  -- Handler.Login
  unfoldable pub handle_login : Request → Store → Reply × Store
  handle_login r s =
      if not available
      then (error_reply internal_handler_error, s)
      else elim (decode library login_fields library.login_request r) [
        | none ↦ (error_reply decode_failure, s)
        | some q ↦ call_login r q s
      ]

  unfoldable pub call_refresh : Request → RefreshRequest → Store → Reply × Store
  unfolding answer
  call_refresh r q s =
      answer 200 (λ l. refresh_payload (new_refresh_response l))
        (refresh env service
          (record { refresh_token = q.refresh_token; request_id = r.context.request_id }) s)

  -- Handler.Refresh
  unfoldable pub handle_refresh : Request → Store → Reply × Store
  handle_refresh r s =
      if not available
      then (error_reply internal_handler_error, s)
      else elim (decode library refresh_fields library.refresh_request r) [
        | none ↦ (error_reply decode_failure, s)
        | some q ↦ call_refresh r q s
      ]

  unfoldable pub call_logout : Principal → Store → Reply × Store
  unfolding answer
  call_logout p s =
      answer 200 (λ u. logged_out_payload true)
        (logout env (record { user_id = p.user_id; session_id = p.session_id }) s)

  -- Handler.Logout
  unfoldable pub handle_logout : Request → Store → Reply × Store
  handle_logout r s = elim (principal r) [
    | none ↦ (error_reply internal_handler_error, s)
    | some p ↦ if not available then (error_reply internal_handler_error, s) else call_logout p s
  ]
