-- ===== src/Endpoint/Profile.antt =====
-- identity/handler/profile.go: Me, PublicUser, UpdateMe and DeleteMe; and ChangeStatus of
-- identity/handler/status.go. `available` is Handler.available.
use content_platform.Prelude.{ℤ, [], Text, Bool, true, not, Option, none, some, if◌then◌else◌}
use content_platform.GoTime.{Time, truncate_second}
use content_platform.Domain.Validation.{TextRules}
use content_platform.Ports.{Field, unset, set_field}
use content_platform.Database.{Store, Environment}
use content_platform.Authn.{Principal}
use content_platform.Http.{Request}
use content_platform.Service.Authenticate.{me}
use content_platform.Service.Profile.{public_user, update_me}
use content_platform.Service.Deletion.{delete_me}
use content_platform.Service.StatusChange.Run.{change_user_status}
use content_platform.Endpoint.Payload.{
  user_payload, public_user_payload, deleted_payload, UpdateMeRequest, ChangeStatusRequest,
  new_user_response, new_public_user_response,
}
use content_platform.Endpoint.Reply.{
  Reply, error_reply, principal, internal_handler_error, validation_handler_error,
}
use content_platform.Endpoint.Requests.{
  RequestLibrary, decode, decode_failure, update_me_fields, change_status_fields,
}
use content_platform.Endpoint.PathId.{parse_path_id}
use content_platform.Endpoint.Instant.{parse_strict_rfc3339}
use content_platform.Endpoint.Auth.{answer}

-- `if request.X != nil { input.X = SetField(*request.X) }`
unfoldable pub optional_field : Option Text → Field Text
optional_field none = unset
optional_field (some value) = set_field value

-- `if request.Reason != nil { input.Reason = *request.Reason }`
unfoldable pub text_or_empty : Option Text → Text
text_or_empty none = []
text_or_empty (some value) = value

-- The instant that a request gives: `none` where its text is refused.
unfoldable pub requested_instant : Option Text → Option (Option Time)
requested_instant none = some none
requested_instant (some raw) = elim (parse_strict_rfc3339 raw) [
  | none ↦ none
  | some parsed ↦ some (some (truncate_second parsed))
]

module _ (env : Environment) (rules : TextRules) where
  unfoldable pub call_me : Request → Principal → Store → Reply × Store
  unfolding answer
  call_me r p s =
      answer 200 (λ u. user_payload (new_user_response u))
        (me env rules (record { user_id = p.user_id; session_id = p.session_id })
          r.context.request_id s)

  unfoldable pub call_public_user : Request → ℤ → Store → Reply × Store
  unfolding answer
  call_public_user r target_id s =
      answer 200 (λ u. public_user_payload (new_public_user_response u))
        (public_user env rules (record { user_id = target_id; request_id = r.context.request_id })
          s)

  unfoldable pub call_update_me : Request → Principal → UpdateMeRequest → Store → Reply × Store
  unfolding answer optional_field
  call_update_me r p q s =
      answer 200 (λ u. user_payload (new_user_response u))
        (update_me env rules
          (record {
            user_id = p.user_id;
            session_id = p.session_id;
            request_id = r.context.request_id;
            display_name = optional_field q.display_name;
            bio = optional_field q.bio;
          })
          s)

  unfoldable pub call_delete_me : Request → Principal → Store → Reply × Store
  unfolding answer
  call_delete_me r p s =
      answer 200 (λ u. deleted_payload true)
        (delete_me env rules
          (record {
            user_id = p.user_id;
            session_id = p.session_id;
            request_id = r.context.request_id;
          })
          s)

  unfoldable pub call_change_status :
      Request → ℤ → Principal → ChangeStatusRequest → Option Time → Store → Reply × Store
  unfolding answer text_or_empty
  call_change_status r target_id p q muted_until s =
      answer 200 (λ u. user_payload (new_user_response u))
        (change_user_status env rules
          (record {
            actor_id = p.user_id;
            actor_session_id = p.session_id;
            target_id = target_id;
            new_status = q.status;
            reason = text_or_empty q.reason;
            muted_until = muted_until;
            request_id = r.context.request_id;
          })
          s)

  module _ (library : RequestLibrary) (available : Bool) where
    -- `principal, ok := h.principal(r); if !ok || !h.available()`, and what follows.
    unfoldable pub with_principal : Request → Store → (Principal → Reply × Store) → Reply × Store
    with_principal r s next = elim (principal r) [
      | none ↦ (error_reply internal_handler_error, s)
      | some p ↦ if not available then (error_reply internal_handler_error, s) else next p
    ]

    -- Handler.Me
    unfoldable pub handle_me : Request → Store → Reply × Store
    unfolding with_principal
    handle_me r s = with_principal r s (λ p. call_me r p s)

    -- Handler.PublicUser
    unfoldable pub handle_public_user : Request → Store → Reply × Store
    handle_public_user r s = elim (parse_path_id r.path_id) [
      | none ↦ (error_reply validation_handler_error, s)
      | some target_id ↦
          if not available
          then (error_reply internal_handler_error, s)
          else call_public_user r target_id s
    ]

    unfoldable pub update_with : Request → Principal → Store → Reply × Store
    update_with r p s = elim (decode library update_me_fields library.update_me_request r) [
      | none ↦ (error_reply decode_failure, s)
      | some q ↦ call_update_me r p q s
    ]

    -- Handler.UpdateMe
    unfoldable pub handle_update_me : Request → Store → Reply × Store
    unfolding with_principal update_with
    handle_update_me r s = with_principal r s (λ p. update_with r p s)

    -- Handler.DeleteMe
    unfoldable pub handle_delete_me : Request → Store → Reply × Store
    unfolding with_principal
    handle_delete_me r s = with_principal r s (λ p. call_delete_me r p s)

    unfoldable pub change_with : Request → ℤ → Principal → Store → Reply × Store
    unfolding requested_instant
    change_with r target_id p s =
        elim (decode library change_status_fields library.change_status_request r) [
          | none ↦ (error_reply decode_failure, s)
          | some q ↦ elim (requested_instant q.muted_until) [
            | none ↦ (error_reply validation_handler_error, s)
            | some muted_until ↦ call_change_status r target_id p q muted_until s
          ]
        ]

    -- Handler.ChangeStatus
    unfoldable pub handle_change_status : Request → Store → Reply × Store
    unfolding with_principal change_with
    handle_change_status r s = elim (parse_path_id r.path_id) [
      | none ↦ (error_reply validation_handler_error, s)
      | some target_id ↦ with_principal r s (λ p. change_with r target_id p s)
    ]
