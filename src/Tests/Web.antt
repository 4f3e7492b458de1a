-- ===== src/Tests/Web.antt =====
-- The HTTP layer at small requests, and the theorems at these.
use content_platform.Prelude.{
  ℕ, pos, Text, codes, List, [], ◌∷◌, ◌++◌, true, false, Option, none, some, ◌≡◌, ◌≢◌, ◌↔◌, ◌⊎◌,
  refl, arith, text_eq,
}
use mathlib.Core.List.Perm
use content_platform.GoTime.{Time}
use content_platform.Errors.{adapter_error, internal}
use content_platform.Database.{Store}
use content_platform.Authn.{Principal}
use content_platform.Authn.Bearer.{bearer_token, single_header_value}
use content_platform.Authn.Bearer.Grammar.{IsBearer, bearer_token_iff}
use content_platform.Authn.Bearer.Order.{single_header_value-Perm}
use content_platform.Authn.Middleware.{Verifier, middleware, reject_access_token, with_context}
use content_platform.Authn.Middleware.Safety.{IsAuthenticated, middleware-IsAuthenticated}
use content_platform.Http.{
  Header, Context, Request, Writer, World, LogEntry, request_completed, returned, Handler, get,
}
use content_platform.Httpx.Recorder.{sent_status}
use content_platform.Httpx.Response.{Envelope, write_data}
use content_platform.Httpx.Middleware.{access_log, recovery}
use content_platform.Httpx.Middleware.Logged.{IsLawful, write_data-IsRecording, access_log-recovery}
use content_platform.Httpx.Decode.{ObjectStream, exact_json_fields, validate_exact_object_fields}
use content_platform.Httpx.Decode.Fields.{AreNamed, validate_exact_object_fields_iff}
use content_platform.Token.Decimal.{parse_positive_id}
use content_platform.Endpoint.PathId.{parse_path_id, parse_path_id-parse_positive_id}
use content_platform.Endpoint.Instant.{valid_rfc3339_syntax}
use content_platform.Endpoint.Instant.Bounds.{valid_rfc3339_syntax-ne-none}
use content_platform.Endpoint.Payload.{Payload, liveness_payload}
use content_platform.Endpoint.Reply.{access_token_rejected, service_failure, write_failure}
use content_platform.Endpoint.Reply.Status.{
  challenge, write_failure-hidden, write_failure-challenge,
}
use content_platform.Endpoint.Requests.{RequestLibrary, login_fields}
use content_platform.App.Dispatch.{dispatch}
use content_platform.App.Routes.{Server, routes}
use content_platform.App.Routes.Guarded.{is_open, state_after, routes-IsGuarded}
use content_platform.Tests.Fixture.{env, rules, service, store, today}

bearer_token_iff_example :
    (bearer_token (codes "bearer  abc") ≡ some (codes "abc"))
    ↔ IsBearer (codes "bearer  abc") (codes "abc")
bearer_token_iff_example = bearer_token_iff (codes "bearer  abc") (codes "abc")

abbrev accept_field : Text × List Text
accept_field = (codes "Accept", codes "*/*" ∷ [])

abbrev authorization_field : Text × List Text
authorization_field = (codes "Authorization", codes "Bearer abc" ∷ [])

single_header_value-Perm_example :
    single_header_value (accept_field ∷ authorization_field ∷ []) (codes "Authorization")
    ≡ single_header_value (authorization_field ∷ accept_field ∷ []) (codes "Authorization")
single_header_value-Perm_example =
    single_header_value-Perm (codes "Authorization") (accept_field ∷ authorization_field ∷ [])
      (authorization_field ∷ accept_field ∷ []) (Perm.swap authorization_field accept_field [])

abbrev context : Context
context = record { request_id = codes "r-1"; principal = none; cancelled = λ n. false }

abbrev request : Request
request = record {
  context = context;
  method = codes "GET";
  path = codes "/me";
  path_id = [];
  header = authorization_field ∷ [];
  body = [];
}

abbrev verifier : Verifier
verifier token now = some (record { user_id = pos 1; session_id = pos 5 })

abbrev writer : Writer
writer = record { header = []; sent = none; body = []; recorder = none }

abbrev world : World Store
world = record { writer = writer; log = []; state = store }

abbrev marshal : Envelope Payload → Option Text
marshal e = some (codes "{}")

-- A handler that writes a payload.
abbrev live : Handler Store
live r w = returned (write_data marshal r.context 200 (liveness_payload (codes "ok")) w)

live-IsLawful : IsLawful live
live-IsLawful r w h =
    write_data-IsRecording marshal r.context 200 (liveness_payload (codes "ok")) w (omega arith) h

middleware-IsAuthenticated_example :
    (middleware (some verifier) (some today) none live request world
      ≡ reject_access_token none request world)
    ⊎ ((v : Verifier) × (now : Time) × (p : Principal) × (some verifier ≡ some v)
        × (some today ≡ some now)
        × IsAuthenticated v now request p
        × (middleware (some verifier) (some today) none live request world
            ≡ live (with_context p request) world))
middleware-IsAuthenticated_example =
    middleware-IsAuthenticated none live (some verifier) (some today) request world

access_log-recovery_example :
    (w' : World Store) × (entries : List LogEntry) × (access_log true
        (recovery marshal true live)
        request
        world
      ≡ returned w')
    × (w'.log
        ≡ entries
          ++ (request_completed
                (codes "r-1")
                (codes "GET")
                (codes "/me")
                (sent_status w'.writer.sent)
              ∷ []))
access_log-recovery_example = access_log-recovery marshal true live request world live-IsLawful refl

-- A body {"email": …, "password": …}
abbrev stream : ObjectStream
stream = record {
  opens = true;
  fields =
      record { token = some (some (codes "email")); value_ok = true }
      ∷ record { token = some (some (codes "password")); value_ok = true }
      ∷ [];
  closes = true;
  ends = true;
}

validate_exact_object_fields_iff_example :
    (validate_exact_object_fields stream (some login_fields) ≡ true) ↔ (
      (allowed : List Text) × (names : List Text) × (exact_json_fields (some login_fields)
        ≡ some allowed)
      × AreNamed allowed [] stream.fields names
      × (stream.opens ≡ true)
      × (stream.closes ≡ true)
      × (stream.ends ≡ true))
validate_exact_object_fields_iff_example =
    validate_exact_object_fields_iff stream (some login_fields)

parse_path_id-parse_positive_id_example :
    parse_path_id (codes "42") ≡ parse_positive_id (codes "42")
parse_path_id-parse_positive_id_example = parse_path_id-parse_positive_id (codes "42")

valid_rfc3339_syntax-ne-none_example :
    valid_rfc3339_syntax (codes "2026-09-02T16:30:45.5+08:00") ≢ none
valid_rfc3339_syntax-ne-none_example =
    valid_rfc3339_syntax-ne-none (codes "2026-09-02T16:30:45.5+08:00")

write_failure-hidden_example :
    (write_failure marshal context true (service_failure adapter_error) world).writer
    ≡ (write_failure marshal context true (service_failure (internal none)) world).writer
write_failure-hidden_example =
    write_failure-hidden marshal context true adapter_error (internal none) world refl refl

abbrev recorded : World Store
recorded = record world { writer = record writer { recorder = some 0 } }

write_failure-challenge_example :
    (status : ℕ) × (header : Header) × ((write_failure marshal context true access_token_rejected
        recorded).writer.sent
      ≡ some (status, header))
    × ((status ≡ 401) ↔ (get challenge header ≡ codes "Bearer"))
write_failure-challenge_example =
    write_failure-challenge marshal context true access_token_rejected recorded (λ x. codes "{}")
      (λ x. refl) refl refl (unfold get in refl)

abbrev library : RequestLibrary
library = record {
  body = record {
    parse_media_type = λ s. some s;
    first_value = λ s. some (s, true);
    object_stream = λ s. stream;
  };
  register_request = λ s. none;
  login_request = λ s. some (record { email = codes "ann@b"; password = codes "secret12" });
  refresh_request = λ s. none;
  update_me_request = λ s. none;
  change_status_request = λ s. none;
}

abbrev server : Server
server = record {
  env = env;
  rules = rules;
  service = service;
  library = library;
  marshal = marshal;
  available = true;
  logger = true;
  verifier = some verifier;
  clock = some today;
  results = [];
  random_text = codes "RANDOM";
  unescape = λ s. s;
  redirect = λ r w. returned w;
}

me-IsGuarded : is_open (dispatch (λ s. s) (codes "GET") (codes "/me")) ≡ false
unfolding dispatch text_eq
me-IsGuarded = refl

routes-IsGuarded_example :
    (state_after (routes server request world) ≡ store)
    ⊎ ((v : Verifier) × (now : Time) × (p : Principal) × (some verifier ≡ some v)
        × (some today ≡ some now)
        × IsAuthenticated v now request p)
routes-IsGuarded_example = routes-IsGuarded server request world me-IsGuarded
