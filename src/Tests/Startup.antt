-- ===== src/Tests/Startup.antt =====
-- Passwords, the configuration, the start and the end of the application, at small values.
use content_platform.Prelude.{
  ℕ, ◌≤◌, ◌*◌, ℤ, pos, Text, codes, List, [], ◌∷◌, Bool, true, false, Option, none, some, ◌≡◌, refl,
  text_eq, leb, ltb, if◌then◌else◌,
}
use content_platform.GoTime.{second}
use content_platform.Errors.{ok}
use content_platform.Domain.Validation.{byte_length}
use content_platform.Password.{
  BcryptLibrary, Bcrypt, Comparison, same, mismatched, broken, dummy_candidate,
}
use content_platform.Password
use content_platform.Address.{AddressLibrary}
use content_platform.Configuration.{Config, validate}
use content_platform.App.Start.{
  App, Startup, Closer, redis_client, database, database_opened, new_with_dependencies,
}
use content_platform.App.Start.Correct.{new_with_dependencies-validate}
use content_platform.App.Lifecycle.{
  Resources, Ending, context_done, server_closed, run, close_resources, close_all, run-closed,
}

-- Its hashes are the cost and the password.
same_text : Bool → Comparison
same_text true = same
same_text false = mismatched

compare_stored : Text → Text → Comparison
compare_stored [] candidate = broken
compare_stored (cost ∷ password) candidate = same_text (text_eq password candidate)

stored_cost : Text → Option ℕ
stored_cost [] = none
stored_cost (cost ∷ password) = some cost

abbrev bcrypt : BcryptLibrary
bcrypt = record {
  generate =
      λ password cost. if leb (byte_length password) 72 then some (cost ∷ password) else none;
  cost_of = stored_cost;
  compare_hash_and_password = compare_stored;
}

abbrev hasher : Bcrypt
hasher = record { cost = 12; dummy_hash = 12 ∷ dummy_candidate }

abbrev addresses : AddressLibrary
addresses = record {
  split_host_port = λ address. some (codes "localhost", codes "6379");
  parse_request_uri = λ value. some (codes "postgres", codes "/content");
  parses_as_pgx = λ value. true;
}

abbrev config : Config
config = record {
  environment = codes "local";
  http = record {
    address = codes "localhost:6379";
    read_header_timeout = pos (5 * second);
    read_timeout = pos (10 * second);
    write_timeout = pos (15 * second);
    idle_timeout = pos (60 * second);
    shutdown_timeout = pos (10 * second);
  };
  database = record {
    url = codes "postgres://localhost/content";
    max_open_conns = pos 20;
    max_idle_conns = pos 5;
    conn_max_lifetime = pos (1800 * second);
    ping_timeout = pos (3 * second);
  };
  redis = record {
    address = codes "localhost:6379";
    password = [];
    db = pos 0;
    ping_timeout = pos (2 * second);
  };
  auth = record {
    jwt_secret = codes "0123456789abcdef0123456789abcdef";
    jwt_issuer = codes "content-platform";
    jwt_audience = codes "content-platform-api";
    access_token_ttl = pos (900 * second);
    refresh_token_ttl = pos (2592000 * second);
    bcrypt_cost = pos 12;
  };
  log = record { level = codes "info"; format = codes "json" };
}

config-valid : validate addresses config ≡ none
unfolding validate content_platform.Configuration.check content_platform.Configuration.first_error
    content_platform.Configuration.validate_http content_platform.Configuration.validate_database
    content_platform.Configuration.validate_redis content_platform.Configuration.validate_auth
    content_platform.Configuration.validate_log content_platform.Address.valid_tcp_address
    content_platform.Address.valid_database_url content_platform.Address.only_slashes
    content_platform.Address.valid_port content_platform.Address.atoi
    content_platform.Address.atoi_digits content_platform.Configuration.not_positive
    content_platform.Configuration.below_second content_platform.Configuration.part_of_second
    content_platform.Configuration.cost_refused text_eq
    content_platform.Domain.Validation.trim_space content_platform.Domain.Validation.is_space
    byte_length content_platform.Domain.Validation.rune_width
    content_platform.Token.Decimal.all_digits content_platform.Token.Decimal.is_digit
    content_platform.Token.Decimal.parse_int content_platform.Token.Decimal.parse_uint_loop
    content_platform.Prelude.is_positive content_platform.Prelude.is_negative
    content_platform.Prelude.ltb_ℤ
config-valid = refl

abbrev startup : Startup
startup = record {
  bcrypt = bcrypt;
  jwt = record {
    signed_string = λ method key c. none;
    parse_with_claims = λ method key_of raw. none;
  };
  sha256 = λ raw. raw;
  jwt_random = none;
  refresh_random = none;
  opens_database = true;
  redis_answers = false;
}

dummy-generated :
    (cost : ℕ)
    → 10 ≤ cost
    → cost ≤ 15
    → startup.bcrypt.generate dummy_candidate cost ≡ some (cost ∷ dummy_candidate)
unfolding byte_length content_platform.Domain.Validation.rune_width
dummy-generated cost low high = refl

new_with_dependencies-validate_example :
    (app : App) × (new_with_dependencies startup config ≡ (ok app, database_opened ∷ []))
new_with_dependencies-validate_example =
    new_with_dependencies-validate startup config addresses (λ cost. cost ∷ dummy_candidate)
      config-valid refl dummy-generated

abbrev resources : Resources
resources = record {
  closers = some redis_client ∷ none ∷ some database ∷ [];
  once_done = false;
  close_err = [];
  closed = [];
}

abbrev close : Closer → List Text
close c = codes "closed" ∷ []

abbrev ending : Ending
ending = context_done (codes "deadline" ∷ []) [] server_closed

run-closed_example :
    ((run close (codes ":8080") none ending resources).1.closed ≡ redis_client ∷ database ∷ [])
    × (close_resources close (run close (codes ":8080") none ending resources).1 ≡ (
      (close_all close resources.closers).0,
      (run close (codes ":8080") none ending resources).1,
    ))
run-closed_example = run-closed close (codes ":8080") none ending resources refl refl
