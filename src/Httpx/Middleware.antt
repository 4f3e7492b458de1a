-- ===== src/Httpx/Middleware.antt =====
-- platform/httpx/middleware.go: Chain, AccessLog and Recovery.
use content_platform.Prelude.{
  ℕ, Text, List, [], ◌∷◌, ◌++◌, Bool, true, false, Option, none, some, if◌then◌else◌,
}
use content_platform.Http.{
  Context, Request, Writer, World, LogEntry, request_completed, panic_recovered, Exit, returned,
  panicked, Handler,
}
use content_platform.AppError.{AppError, application}
use content_platform.Httpx.Recorder.{status_of}
use content_platform.Httpx.Response.{Envelope, hidden_error, write_error}
pub mod Logged

module _ {S : Type 0} where
  -- Chain: the first middleware is the outermost.
  unfoldable pub chain : Handler S → List (Handler S → Handler S) → Handler S
  chain handler [] = handler
  chain handler (m ∷ middleware) = m (chain handler middleware)

  -- What AccessLog does when the handler has returned, and has restored the writer.
  unfoldable pub log_request : Bool → Request → World S → World S
  log_request logger r w =
      let status = status_of w.writer.recorder in
      record w {
        writer = record w.writer { recorder = none };
        log =
            if logger
            then w.log ++ (request_completed r.context.request_id r.method r.path status ∷ [])
            else w.log;
      }

  -- After a panic of the handler AccessLog writes nothing.
  unfoldable pub log_exit : Bool → Request → Exit S → Exit S
  log_exit logger r (returned w) = returned (log_request logger r w)
  log_exit logger r (panicked w) =
      panicked (record w { writer = record w.writer { recorder = none } })

  -- AccessLog, around a writer that no recorder stands before.
  unfoldable pub access_log : Bool → Handler S → Handler S
  access_log logger next r w =
      log_exit logger r (next r (record w { writer = record w.writer { recorder = some 0 } }))

  module _ {D : Type 0} (marshal : Envelope D → Option Text) where
    -- The deferred function of Recovery.
    unfoldable pub recover : Bool → Request → Exit S → Exit S
    recover logger r (returned w) = returned w
    recover logger r (panicked w) =
        let log = if logger then w.log ++ (panic_recovered r.context.request_id ∷ []) else w.log in
        returned
          (write_error marshal r.context logger (application hidden_error) (record w { log = log }))

    -- Recovery
    unfoldable pub recovery : Bool → Handler S → Handler S
    recovery logger next r w = recover logger r (next r w)
