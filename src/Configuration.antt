-- ===== src/Configuration.antt =====
-- infra/config: the configuration (config.go) and its validation (validate.go). An error is its message.
-- Reading the environment with its defaults is a parameter.
use content_platform.Prelude.{
  ℕ, zero, suc, ◌+◌, ◌%◌, ℤ, pos, negsuc, is_positive, is_negative, ltb_ℤ, Text, List, [], ◌∷◌,
  codes, Bool, true, false, not, ◌&&◌, ◌||◌, Option, none, some, ltb, leb, ◌==◌, text_eq,
  if◌then◌else◌,
}
use content_platform.GoTime.{second}
use content_platform.Domain.Validation.{TextRules, byte_length, trim_space, to_lower}
use content_platform.Address.{AddressLibrary, valid_tcp_address, valid_database_url}
pub mod Load
pub mod Redaction
pub mod Start

-- Durations are signed, in nanoseconds.
pub record HttpConfig : Type 0 where
  pub address : Text
  pub read_header_timeout : ℤ
  pub read_timeout : ℤ
  pub write_timeout : ℤ
  pub idle_timeout : ℤ
  pub shutdown_timeout : ℤ

pub record DatabaseConfig : Type 0 where
  pub url : Text
  pub max_open_conns : ℤ
  pub max_idle_conns : ℤ
  pub conn_max_lifetime : ℤ
  pub ping_timeout : ℤ

pub record RedisConfig : Type 0 where
  pub address : Text
  pub password : Text
  pub db : ℤ
  pub ping_timeout : ℤ

pub record AuthConfig : Type 0 where
  pub jwt_secret : Text
  pub jwt_issuer : Text
  pub jwt_audience : Text
  pub access_token_ttl : ℤ
  pub refresh_token_ttl : ℤ
  pub bcrypt_cost : ℤ

pub record LogConfig : Type 0 where
  pub level : Text
  pub format : Text

pub record Config : Type 0 where
  pub environment : Text
  pub http : HttpConfig
  pub database : DatabaseConfig
  pub redis : RedisConfig
  pub auth : AuthConfig
  pub log : LogConfig

pub record MigrationConfig : Type 0 where
  pub environment : Text
  pub database : DatabaseConfig
  pub log : LogConfig

-- `if condition { return error }`, and then the tests that follow.
unfoldable pub check : Bool → Text → Option Text → Option Text
check condition message rest = if condition then some message else rest

-- A duration or a number that is not greater than zero.
unfoldable pub not_positive : ℤ → Bool
not_positive n = not (is_positive n)

module _ (library : AddressLibrary) where
  -- HTTPConfig.Validate
  unfoldable pub validate_http : HttpConfig → Option Text
  validate_http c =
      check (not (valid_tcp_address library c.address false))
        (codes "HTTP_ADDR must be a valid TCP address")
        (check (not_positive c.read_header_timeout)
          (codes "HTTP_READ_HEADER_TIMEOUT must be greater than zero")
          (check (not_positive c.read_timeout) (codes "HTTP_READ_TIMEOUT must be greater than zero")
            (check (not_positive c.write_timeout)
              (codes "HTTP_WRITE_TIMEOUT must be greater than zero")
              (check (not_positive c.idle_timeout)
                (codes "HTTP_IDLE_TIMEOUT must be greater than zero")
                (check (not_positive c.shutdown_timeout)
                  (codes "HTTP_SHUTDOWN_TIMEOUT must be greater than zero") none)))))

  -- DatabaseConfig.Validate
  unfoldable pub validate_database : DatabaseConfig → Option Text
  validate_database c = check (text_eq (trim_space c.url) []) (codes "DATABASE_URL is required") (
      check (not (valid_database_url library c.url))
        (codes "DATABASE_URL must be a valid PostgreSQL URL")
        (check (not_positive c.max_open_conns)
          (codes "DATABASE_MAX_OPEN_CONNS must be greater than zero")
          (check (is_negative c.max_idle_conns)
            (codes "DATABASE_MAX_IDLE_CONNS must not be negative")
            (check (ltb_ℤ c.max_open_conns c.max_idle_conns)
              (codes "DATABASE_MAX_IDLE_CONNS must not exceed DATABASE_MAX_OPEN_CONNS")
              (check (not_positive c.conn_max_lifetime)
                (codes "DATABASE_CONN_MAX_LIFETIME must be greater than zero")
                (check (not_positive c.ping_timeout)
                  (codes "DATABASE_PING_TIMEOUT must be greater than zero") none))))))

  -- RedisConfig.Validate
  unfoldable pub validate_redis : RedisConfig → Option Text
  validate_redis c =
      check (not (valid_tcp_address library c.address true))
        (codes "REDIS_ADDR must be a valid TCP address with a host")
        (check (is_negative c.db) (codes "REDIS_DB must not be negative") (
          check (not_positive c.ping_timeout) (codes "REDIS_PING_TIMEOUT must be greater than zero")
            none))

-- `d < time.Second`, and `d % time.Second != 0` of a duration that is not negative
unfoldable pub below_second : ℤ → Bool
below_second (negsuc n) = true
below_second (pos n) = ltb n second

unfoldable pub part_of_second : ℤ → Bool
part_of_second (negsuc n) = not ((n + 1) % second == 0)
part_of_second (pos n) = not (n % second == 0)

-- `c.BcryptCost < 10 || c.BcryptCost > 15`
unfoldable pub cost_refused : ℤ → Bool
cost_refused (negsuc n) = true
cost_refused (pos n) = ltb n 10 || ltb 15 n

-- AuthConfig.Validate
unfoldable pub validate_auth : AuthConfig → Option Text
validate_auth c =
    check (ltb (byte_length c.jwt_secret) 32) (codes "AUTH_JWT_SECRET must be at least 32 bytes") (
      check (text_eq (trim_space c.jwt_issuer) []) (codes "AUTH_JWT_ISSUER must not be empty") (
        check (text_eq (trim_space c.jwt_audience) []) (codes "AUTH_JWT_AUDIENCE must not be empty")
          (check (not_positive c.access_token_ttl)
            (codes "AUTH_ACCESS_TOKEN_TTL must be greater than zero")
            (check (below_second c.access_token_ttl)
              (codes "AUTH_ACCESS_TOKEN_TTL must be at least one second")
              (check (part_of_second c.access_token_ttl)
                (codes "AUTH_ACCESS_TOKEN_TTL must use whole-second precision")
                (check (not_positive c.refresh_token_ttl)
                  (codes "AUTH_REFRESH_TOKEN_TTL must be greater than zero")
                  (check (below_second c.refresh_token_ttl)
                    (codes "AUTH_REFRESH_TOKEN_TTL must be at least one second")
                    (check (part_of_second c.refresh_token_ttl)
                      (codes "AUTH_REFRESH_TOKEN_TTL must use whole-second precision")
                      (check (not (ltb_ℤ c.access_token_ttl c.refresh_token_ttl))
                        (codes "AUTH_REFRESH_TOKEN_TTL must be greater than AUTH_ACCESS_TOKEN_TTL")
                        (check (cost_refused c.bcrypt_cost)
                          (codes "AUTH_BCRYPT_COST must be between 10 and 15") none))))))))))

-- LogConfig.Validate
unfoldable pub validate_log : LogConfig → Option Text
validate_log c =
    check
      (not (
        text_eq c.level (codes "debug")
        || text_eq c.level (codes "info")
        || text_eq c.level (codes "warn")
        || text_eq c.level (codes "error")))
      (codes "LOG_LEVEL must be one of debug, info, warn, or error")
      (check (not (text_eq c.format (codes "json") || text_eq c.format (codes "text")))
        (codes "LOG_FORMAT must be one of json or text") none)

-- `if err := part.Validate(); err != nil { return err }`
unfoldable pub first_error : Option Text → Option Text → Option Text
first_error none rest = rest
first_error (some message) rest = some message

module _ (library : AddressLibrary) where
  -- Config.Validate
  unfoldable pub validate : Config → Option Text
  validate c = check (text_eq (trim_space c.environment) []) (codes "APP_ENV must not be empty") (
      first_error (validate_http library c.http) (
        first_error (validate_database library c.database) (
          first_error (validate_redis library c.redis)
            (first_error (validate_auth c.auth) (validate_log c.log)))))

  -- MigrationConfig.Validate
  unfoldable pub validate_migration : MigrationConfig → Option Text
  validate_migration c =
      check (text_eq (trim_space c.environment) []) (codes "APP_ENV must not be empty")
        (first_error (validate_database library c.database) (validate_log c.log))
