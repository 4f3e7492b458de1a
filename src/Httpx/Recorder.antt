-- ===== src/Httpx/Recorder.antt =====
-- statusRecorder of platform/httpx/middleware.go, and the writes of a handler, which reach the server's
-- writer through the recorder where one stands before it.
use content_platform.Prelude.{ℕ, Text, Option, none, some, ◌==◌, if◌then◌else◌, ◌≡◌, ◌≢◌, arith}
use content_platform.Http.{Header, Writer, set, server_write_header, server_write}

-- `w.WriteHeader(status)`
unfoldable pub write_header : ℕ → Writer → Writer
write_header status w = elim w.recorder [
  | none ↦ server_write_header status w
  | some recorded ↦
      if recorded == 0 then record (server_write_header status w) { recorder = some status } else w
]

-- `w.Write(body)`
unfoldable pub write : Text → Writer → Writer
write body w = elim w.recorder [
  | none ↦ server_write body w
  | some recorded ↦ server_write body (if recorded == 0 then write_header 200 w else w)
]

-- `w.Header().Set(name, value)`
unfoldable pub set_header : Text → Text → Writer → Writer
set_header name value w = record w { header = set name value w.header }

-- `recorder.Status()`
unfoldable pub status_of : Option ℕ → ℕ
status_of none = 200
status_of (some recorded) = if recorded == 0 then 200 else recorded

-- The recorder's status is 0 until the header is sent, and from then on the status that was sent.
abbrev pub IsRecorded : Option (ℕ × Header) → Option ℕ → Type 0
IsRecorded none recorder = recorder ≡ some 0
IsRecorded (some (status, header)) recorder = (recorder ≡ some status) × (status ≢ 0)

abbrev pub IsRecording : Writer → Type 0
IsRecording w = IsRecorded w.sent w.recorder

pub set_header-IsRecording :
    (name value : Text) (w : Writer) → IsRecording w → IsRecording (set_header name value w)
unfolding set_header
set_header-IsRecording name value w h = h

pub write_header-IsRecording :
    (status : ℕ) (w : Writer) → status ≢ 0 → IsRecording w → IsRecording (write_header status w)
unfolding write_header server_write_header
write_header-IsRecording status w h k = ground arith

pub write-IsRecording : (body : Text) (w : Writer) → IsRecording w → IsRecording (write body w)
unfolding write write_header server_write server_write_header
write-IsRecording body w k = ground arith

-- The status that the client gets: net/http sends 200 for a handler that wrote nothing.
unfoldable pub sent_status : Option (ℕ × Header) → ℕ
sent_status none = 200
sent_status (some (status, header)) = status

pub status_of-IsRecording : (w : Writer) → IsRecording w → status_of w.recorder ≡ sent_status w.sent
unfolding status_of sent_status
status_of-IsRecording w h = ground arith
