-- ===== src/Endpoint/Reply/Status.antt =====
-- What a client learns of an error.
use content_platform.Prelude.{
  ℕ, Text, [], ◌∷◌, codes, Bool, true, false, Option, none, some, ◌≡◌, ◌↔◌, refl, sym, ◌∙◌, subst,
  arith, Bool-cases, inl, inr, text_eq, text_eq_refl, text_eq_sound, if◌then◌else◌,
}
use content_platform.Errors.{
  Error, email_exists, not_found, invalid_service_configuration, email_already_registered,
  invalid_credentials, invalid_refresh_token, session_invalid, user_frozen, user_not_found,
  admin_required, admin_target_forbidden, invalid_status_transition, validation, internal,
  repository_internal, context_error, adapter_error,
}
use content_platform.AppError.{Failure, new_error, wrap_error, from, kind_text}
use content_platform.Http.{
  Header, Context, Writer, World, get, set, first_value, server_write, server_write_header,
}
use content_platform.Httpx.Recorder.{set_header, write_header, write}
use content_platform.Httpx.Response.{
  Envelope, failure, status_for_kind, shown, shown_of_status, hidden_error, message_of, code_of,
  send, write_json, write_error, log_internal_error, content_type_json,
}
use content_platform.Endpoint.Payload.{Payload}
use content_platform.Endpoint.Reply.{
  HandlerFailure, service_failure, public_error, service_error, handler_error, is_unauthenticated,
  write_failure,
}

-- The errors of the service that name no condition for the client: failures of the database or of an
-- adapter, contexts that ended, and the repository's own errors, which the service replaces.
abbrev pub is_hidden : Error → Bool
is_hidden email_exists = true
is_hidden not_found = true
is_hidden invalid_service_configuration = true
is_hidden email_already_registered = false
is_hidden invalid_credentials = false
is_hidden invalid_refresh_token = false
is_hidden session_invalid = false
is_hidden user_frozen = false
is_hidden user_not_found = false
is_hidden admin_required = false
is_hidden admin_target_forbidden = false
is_hidden invalid_status_transition = false
is_hidden (validation field) = false
is_hidden (internal c) = true
is_hidden (repository_internal c) = true
is_hidden (context_error c) = true
is_hidden adapter_error = true

module _ {S : Type 0} (marshal : Envelope Payload → Option Text) (ctx : Context)
    (logger : Bool) where
  -- The response to an internal error.
  abbrev internal_response : World S → Writer
  internal_response w =
      (send 500
        (marshal
          (failure (codes "internal_error") (codes "internal server error") none ctx.request_id))
        w).writer

  hidden_response :
      (e : Error) (w : World S)
      → is_hidden e ≡ true
      → (write_failure marshal ctx logger (service_failure e) w).writer ≡ internal_response w
  unfolding write_failure handler_error service_error public_error wrap_error is_unauthenticated
      write_error write_json send log_internal_error from shown shown_of_status hidden_error
      new_error status_for_kind code_of message_of kind_text text_eq
  hidden_response email_exists w h = refl
  hidden_response not_found w h = refl
  hidden_response invalid_service_configuration w h = refl
  hidden_response email_already_registered w h = absurd (cc)
  hidden_response invalid_credentials w h = absurd (cc)
  hidden_response invalid_refresh_token w h = absurd (cc)
  hidden_response session_invalid w h = absurd (cc)
  hidden_response user_frozen w h = absurd (cc)
  hidden_response user_not_found w h = absurd (cc)
  hidden_response admin_required w h = absurd (cc)
  hidden_response admin_target_forbidden w h = absurd (cc)
  hidden_response invalid_status_transition w h = absurd (cc)
  hidden_response (validation field) w h = absurd (cc)
  hidden_response (internal c) w h = refl
  hidden_response (repository_internal c) w h = refl
  hidden_response (context_error c) w h = refl
  hidden_response adapter_error w h = refl

  -- A client cannot tell the errors that name no condition apart: the responses to any two of them are
  -- the same in status, header and body.
  pub write_failure-hidden :
      (e e' : Error) (w : World S)
      → is_hidden e ≡ true
      → is_hidden e' ≡ true
      → (write_failure marshal ctx logger (service_failure e) w).writer
        ≡ (write_failure marshal ctx logger (service_failure e') w).writer
  write_failure-hidden e e' w h k = hidden_response e w h ∙ sym (hidden_response e' w k)

get-set : (name value : Text) (h : Header) → get name (set name value h) ≡ value
unfolding get set first_value
get-set name value [] = rw (text_eq_refl name) refl
get-set name value ((key, values) ∷ h) = elim (Bool-cases (text_eq key name)) [
  | inl e ↦ rw e (rw (text_eq_refl name) refl)
  | inr e ↦ rw e (rw e (get-set name value h))
]

get-set_other :
    (name key value : Text) (h : Header)
    → text_eq key name ≡ false
    → get name (set key value h) ≡ get name h
unfolding get set first_value
get-set_other name key value [] n = rw n refl
get-set_other name key value ((other_key, values) ∷ h) n =
    elim (Bool-cases (text_eq other_key key)) [
      | inl e ↦
          let m =
            subst (λ (t : Text). text_eq t name ≡ false) (sym (text_eq_sound other_key key e)) n in
          rw e (rw (n, m) refl)
      | inr e ↦ rw e (ground (arith, get-set_other name key value h n))
    ]

is_unauthenticated_iff :
    (f : Failure Payload) → (is_unauthenticated f ≡ true) ↔ ((shown (from f)).0 ≡ 401)
unfolding is_unauthenticated shown shown_of_status from status_for_kind
is_unauthenticated_iff f = ground arith

abbrev pub challenge : Text
challenge = codes "Www-Authenticate"

-- The header that a response with the failure `f` is sent with.
sent_header : Failure Payload → Header → Header
sent_header f h =
    set (codes "Content-Type") content_type_json
      (if is_unauthenticated f then set challenge (codes "Bearer") h else h)

send-sent :
    {S : Type 0} (status : ℕ) (json : Text) (w : World S)
    → w.writer.sent ≡ none
    → w.writer.recorder ≡ some 0
    → (send status (some json) w).writer.sent
      ≡ some (status, set (codes "Content-Type") content_type_json w.writer.header)
unfolding send write write_header set_header server_write server_write_header
send-sent status json w h k = ground arith

send-total :
    {S : Type 0} (status : ℕ) (encoded : Option Text) (json : Text) (w : World S)
    → encoded ≡ some json
    → w.writer.sent ≡ none
    → w.writer.recorder ≡ some 0
    → (send status encoded w).writer.sent
      ≡ some (status, set (codes "Content-Type") content_type_json w.writer.header)
send-total status none json w e h k = absurd (cc)
send-total status (some t) json w e h k = send-sent status t w h k

sent_header-challenge :
    (f : Failure Payload) (h : Header)
    → get challenge h ≡ []
    → (is_unauthenticated f ≡ true) ↔ (get challenge (sent_header f h) ≡ codes "Bearer")
unfolding sent_header
sent_header-challenge f h empty =
    let other_header =
      get-set_other challenge (codes "Content-Type") content_type_json
        (if is_unauthenticated f then set challenge (codes "Bearer") h else h)
        (unfold text_eq in refl) in
    rw other_header (elim (Bool-cases (is_unauthenticated f)) [
      | inl e ↦ rw e ((λ _. get-set challenge (codes "Bearer") h), (λ _. refl))
      | inr e ↦ rw (e, empty) ((λ d. absurd (cc)), (λ d. absurd (cc)))
    ])

module _ {S : Type 0} (marshal : Envelope Payload → Option Text) (ctx : Context)
    (logger : Bool) where
  write_failure-sent :
      (e : HandlerFailure) (w : World S) (json : Envelope Payload → Text)
      → ((x : Envelope Payload) → marshal x ≡ some (json x))
      → w.writer.sent ≡ none
      → w.writer.recorder ≡ some 0
      → (write_failure marshal ctx logger e w).writer.sent
        ≡ some ((shown (from (handler_error e))).0, sent_header (handler_error e) w.writer.header)
  unfolding write_failure write_error write_json log_internal_error sent_header set_header
  write_failure-sent e w json total h k = elim (Bool-cases (is_unauthenticated (handler_error e))) [
    | inl u ↦ rw u (send-total _ _ (json _) _ (total _) h k)
    | inr u ↦ rw u (send-total _ _ (json _) _ (total _) h k)
  ]

  -- A response to an error says "WWW-Authenticate: Bearer" exactly when its status is 401, whatever the
  -- error is. Nothing has been sent before it, the header has no challenge yet, the writer is AccessLog's
  -- recorder, and json.Marshal succeeds.
  pub write_failure-challenge :
      (e : HandlerFailure) (w : World S) (json : Envelope Payload → Text)
      → ((x : Envelope Payload) → marshal x ≡ some (json x))
      → w.writer.sent ≡ none
      → w.writer.recorder ≡ some 0
      → get challenge w.writer.header ≡ []
      → (status : ℕ) × (header : Header) × ((write_failure marshal ctx logger e w).writer.sent
          ≡ some (status, header))
        × ((status ≡ 401) ↔ (get challenge header ≡ codes "Bearer"))
  write_failure-challenge e w json total h k empty =
      let f = handler_error e in
      let by_kind = is_unauthenticated_iff f in
      let by_header = sent_header-challenge f w.writer.header empty in
      (
        (shown (from f)).0,
        sent_header f w.writer.header,
        write_failure-sent e w json total h k,
        ((λ d. by_header.0 (by_kind.1 d)), (λ d. by_kind.0 (by_header.1 d))),
      )
