-- ===== src/Httpx/Middleware/Logged.antt =====
-- The chain of AccessLog and Recovery: what the log and the client are told of a request.
use content_platform.Prelude.{
  ℕ, Text, codes, text_eq, if◌then◌else◌, List, [], ◌∷◌, ◌++◌, Bool, true, Option, none, some, ◌≡◌,
  ◌≢◌, refl, ap, arith,
}
use content_platform.Http.{
  Header, server_write, server_write_header, Context, Request, World, LogEntry, request_completed,
  panic_recovered, Exit, returned, panicked, Handler,
}
use content_platform.AppError.{AppError, Failure, from, new_error}
use content_platform.Httpx.Recorder.{
  sent_status, IsRecording, write_header, write, set_header, set_header-IsRecording,
  write_header-IsRecording, write-IsRecording, status_of-IsRecording,
}
use content_platform.Httpx.Response.{
  Envelope, failure, internal_message, code_of, message_of, status_for_kind, shown, shown_of_status,
  hidden_error, send, write_json, write_data, write_error, log_internal_error,
}
use content_platform.Httpx.Middleware.{log_request, log_exit, access_log, recover, recovery}

shown-ne-zero : {D : Type 0} (e : Option (AppError D)) → (shown e).0 ≢ 0
unfolding shown shown_of_status status_for_kind
shown-ne-zero e = ground arith

module _ {S : Type 0} where
  -- The world in which a handler exits.
  abbrev pub world_of : Exit S → World S
  world_of (returned w) = w
  world_of (panicked w) = w

  -- A handler that writes through the operations of a response writer.
  abbrev pub IsLawful : Handler S → Type 0
  IsLawful next =
      (r : Request) (w : World S) → IsRecording w.writer → IsRecording (world_of (next r w)).writer

  send-IsRecording :
      (status : ℕ) (encoded : Option Text) (w : World S)
      → status ≢ 0
      → IsRecording w.writer
      → IsRecording (send status encoded w).writer
  unfolding send
  send-IsRecording status none w h k =
      write-IsRecording _ (write_header 500 _)
        (write_header-IsRecording 500 _ (ground arith) (set_header-IsRecording _ _ w.writer k))
  send-IsRecording status (some json) w h k =
      write-IsRecording _ (write_header status _)
        (write_header-IsRecording status _ h (set_header-IsRecording _ _ w.writer k))

  module _ {D : Type 0} (marshal : Envelope D → Option Text) where
    pub write_data-IsRecording :
        (ctx : Context) (status : ℕ) (payload : D) (w : World S)
        → status ≢ 0
        → IsRecording w.writer
        → IsRecording (write_data marshal ctx status payload w).writer
    unfolding write_data write_json
    write_data-IsRecording ctx status payload w h k = send-IsRecording status _ w h k

    pub write_error-IsRecording :
        (ctx : Context) (logger : Bool) (e : Failure D) (w : World S)
        → IsRecording w.writer
        → IsRecording (write_error marshal ctx logger e w).writer
    unfolding write_error write_json log_internal_error
    write_error-IsRecording ctx logger e w k = send-IsRecording _ _ _ (shown-ne-zero _) k

    recover-IsRecording :
        (logger : Bool) (r : Request) (e : Exit S)
        → IsRecording (world_of e).writer
        → IsRecording (world_of (recover marshal logger r e)).writer
    unfolding recover
    recover-IsRecording logger r (returned w) h = h
    recover-IsRecording logger r (panicked w) h = write_error-IsRecording r.context logger _ _ h

    recover-returned :
        (logger : Bool) (r : Request) (e : Exit S)
        → recover marshal logger r e ≡ returned (world_of (recover marshal logger r e))
    unfolding recover
    recover-returned logger r (returned w) = refl
    recover-returned logger r (panicked w) = refl

    recovery-IsLawful :
        (logger : Bool) (next : Handler S) → IsLawful next → IsLawful (recovery marshal logger next)
    unfolding recovery
    recovery-IsLawful logger next lawful r w h =
        recover-IsRecording logger r (next r w) (lawful r w h)

    -- Recovery returns, whatever the handler did.
    recovery-returned :
        (logger : Bool) (next : Handler S) (r : Request) (w : World S)
        → recovery marshal logger next r w ≡ returned (world_of (recovery marshal logger next r w))
    unfolding recovery
    recovery-returned logger next r w = recover-returned logger r (next r w)

    -- AccessLog around Recovery, where nothing has been sent: the request returns, though the handler
    -- panics, and the last entry of the log has the request's identifier, method and path, and the
    -- status that the client is sent, or 200 where the handler wrote nothing.
    pub access_log-recovery :
        (logger : Bool) (next : Handler S) (r : Request) (w : World S)
        → IsLawful next
        → w.writer.sent ≡ none
        → (w' : World S) × (entries : List LogEntry) × (access_log true
              (recovery marshal logger next)
              r
              w
            ≡ returned w')
          × (w'.log
              ≡ entries
                ++ (request_completed r.context.request_id r.method r.path
                      (sent_status w'.writer.sent)
                    ∷ []))
    unfolding access_log log_exit log_request
    access_log-recovery logger next r w lawful h =
        let v : World S = record w { writer = record w.writer { recorder = some 0 } } in
        let x = world_of (recovery marshal logger next r v) in
        let k = recovery-IsLawful logger next lawful r v (ground (arith, h)) in
        let e = recovery-returned logger next r v in
        (
          log_request true r x,
          x.log,
          rw e refl,
          ap
              (λ (status : ℕ).
                x.log ++ (request_completed r.context.request_id r.method r.path status ∷ []))
              (status_of-IsRecording x.writer k),
        )

-- The status that is sent, where `status` is what a write would send first.
abbrev pub first_sent : Option (ℕ × Header) → ℕ → ℕ
first_sent none status = status
first_sent (some (sent, header)) status = sent

send-first :
    {S : Type 0} (status : ℕ) (json : Text) (w : World S)
    → status ≢ 0
    → IsRecording w.writer
    → sent_status (send status (some json) w).writer.sent ≡ first_sent w.writer.sent status
unfolding send write write_header set_header server_write server_write_header sent_status
send-first status json w h k = ground arith

module _ {S D : Type 0} (marshal : Envelope D → Option Text) where
  send-failed :
      (w : World S)
      → IsRecording w.writer
      → sent_status (send 500 none w).writer.sent ≡ first_sent w.writer.sent 500
  unfolding send write write_header set_header server_write server_write_header sent_status
  send-failed w k = ground arith

  send-internal :
      (encoded : Option Text) (w : World S)
      → IsRecording w.writer
      → sent_status (send 500 encoded w).writer.sent ≡ first_sent w.writer.sent 500
  send-internal none w k = send-failed w k
  send-internal (some json) w k = send-first 500 json w (ground arith) k

  recover_status :
      (logger : Bool) (r : Request) (v : World S)
      → IsRecording v.writer
      → sent_status (world_of (recover marshal logger r (panicked v))).writer.sent
        ≡ first_sent v.writer.sent 500
  unfolding recover write_error write_json log_internal_error from shown shown_of_status
      hidden_error new_error status_for_kind code_of message_of text_eq
  recover_status logger r v k =
      let w : World S = record v {
        log = if logger then v.log ++ (panic_recovered r.context.request_id ∷ []) else v.log;
      } in
      send-internal
        (marshal (failure (codes "internal_error") internal_message none r.context.request_id)) w k

  -- A handler that panics does not take the server down: Recovery returns, and the client gets status
  -- 500, or the status that the handler had sent before it panicked.
  pub recovery_panicked :
      (logger : Bool) (next : Handler S) (r : Request) (w v : World S)
      → next r w ≡ panicked v
      → IsRecording v.writer
      → (w' : World S) × (recovery marshal logger next r w ≡ returned w')
        × (sent_status w'.writer.sent ≡ first_sent v.writer.sent 500)
  unfolding recovery
  recovery_panicked logger next r w v h k = (
    world_of (recover marshal logger r (panicked v)),
    rw h (recover-returned marshal logger r (panicked v)),
    recover_status logger r v k,
  )
