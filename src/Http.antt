-- ===== src/Http.antt =====
-- What the program uses of Go's package net/http: headers, requests, response writers and handlers,
-- with the two values that the program puts into a request's context (requestid.go and
-- authn/context.go).
use content_platform.Prelude.{
  ℕ, Text, List, [], ◌∷◌, Bool, true, false, Option, none, some, text_eq, leb, ◌==◌, ◌&&◌, ◌+◌,
  if◌then◌else◌, ◌++◌,
}
use content_platform.Authn.{Principal}

-- http.Header as the entries of the map, in the order in which an iteration visits them.
abbrev pub Header : Type 0
Header = List (Text × List Text)

-- `strings.EqualFold(s, t)` for an ASCII `t`: besides its other case, a letter folds with U+017F where
-- it is an s, and with U+212A where it is a k.
unfoldable pub fold : ℕ → ℕ
fold c =
    if leb b'A' c && leb c b'Z'
    then c + 32
    else if c == 0x17F
    then b's'
    else if c == 0x212A
    then b'k'
    else c

unfoldable pub equal_fold : Text → Text → Bool
unfolding fold
equal_fold [] [] = true
equal_fold (a ∷ s) (b ∷ t) = (fold a == fold b) && equal_fold s t
equal_fold [] (b ∷ t) = false
equal_fold (a ∷ s) [] = false

unfoldable pub first_value : List Text → Text
first_value [] = []
first_value (v ∷ values) = v

-- `header.Get(name)`, where `name` is in canonical form, as the keys are.
unfoldable pub get : Text → Header → Text
get name [] = []
get name ((key, values) ∷ header) = if text_eq key name then first_value values else get name header

-- `header.Set(name, value)`, where `name` is in canonical form.
unfoldable pub set : Text → Text → Header → Header
set name value [] = (name, value ∷ []) ∷ []
set name value ((key, values) ∷ header) =
    if text_eq key name then (name, value ∷ []) ∷ header else (key, values) ∷ set name value header

-- The request's context: the values that the middleware puts there, and whether the n-th look at
-- its Err finds one.
pub record Context : Type 0 where
  pub request_id : Text
  pub principal : Option Principal
  pub cancelled : ℕ → Bool

pub record Request : Type 0 where
  pub context : Context
  pub method : Text
  pub path : Text
  -- `r.PathValue("id")`
  pub path_id : Text
  pub header : Header
  pub body : Text

-- What the program logs of requests. The times, the addresses and the texts of errors are not kept.
pub data LogEntry : Type 0 where
  request_completed : (request_id method path : Text) (status : ℕ) → LogEntry
  panic_recovered : (request_id : Text) → LogEntry
  request_failed : (request_id : Text) → LogEntry

-- The server's response writer. `sent` is the status line and the header as WriteHeader sent them.
pub record Writer : Type 0 where
  pub header : Header
  pub sent : Option (ℕ × Header)
  pub body : Text
  -- The status of the statusRecorder that stands before the writer, if one does.
  pub recorder : Option ℕ

-- What a handler reads and writes: the response, the log, and the state of the service behind it.
pub record World (S : Type 0) : Type 0 where
  pub writer : Writer
  pub log : List LogEntry
  pub state : S

-- A handler returns, or panics.
pub data Exit (S : Type 0) : Type 0 where
  returned : World S → Exit S
  panicked : World S → Exit S

abbrev pub Handler : Type 0 → Type 0
Handler S = Request → World S → Exit S

-- The server's WriteHeader: the first call sends the header, and later ones do nothing.
unfoldable pub server_write_header : ℕ → Writer → Writer
server_write_header status w = elim w.sent [
  | none ↦ record w { sent = some (status, w.header) }
  | some _ ↦ w
]

-- The server's Write sends the header with 200 where none has been sent.
unfoldable pub server_write : Text → Writer → Writer
unfolding server_write_header
server_write body w = let v = server_write_header 200 w in record v { body = v.body ++ body }
