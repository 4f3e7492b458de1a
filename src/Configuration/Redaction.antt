-- ===== src/Configuration/Redaction.antt =====
-- infra/config/log_value.go: what is logged of a configuration. A value is a text, or a number or a
-- duration; a configuration is logged as groups of named values.
use content_platform.Prelude.{ℤ, Text, codes, List, [], ◌∷◌, ◌≡◌, refl}
use content_platform.Configuration.{
  HttpConfig, DatabaseConfig, RedisConfig, AuthConfig, LogConfig, Config, MigrationConfig,
}

pub data LogValue : Type 0 where
  text_value : Text → LogValue
  number_value : ℤ → LogValue

abbrev pub Group : Type 0
Group = List (Text × LogValue)

-- redactedValue
abbrev pub redacted_value : Text
redacted_value = codes "[REDACTED]"

-- HTTPConfig.LogValue
unfoldable pub log_http : HttpConfig → Group
log_http c =
    (codes "address", text_value c.address)
    ∷ (codes "read_header_timeout", number_value c.read_header_timeout)
    ∷ (codes "read_timeout", number_value c.read_timeout)
    ∷ (codes "write_timeout", number_value c.write_timeout)
    ∷ (codes "idle_timeout", number_value c.idle_timeout)
    ∷ (codes "shutdown_timeout", number_value c.shutdown_timeout)
    ∷ []

-- DatabaseConfig.LogValue
unfoldable pub log_database : DatabaseConfig → Group
log_database c =
    (codes "url", text_value redacted_value)
    ∷ (codes "max_open_conns", number_value c.max_open_conns)
    ∷ (codes "max_idle_conns", number_value c.max_idle_conns)
    ∷ (codes "conn_max_lifetime", number_value c.conn_max_lifetime)
    ∷ (codes "ping_timeout", number_value c.ping_timeout)
    ∷ []

-- RedisConfig.LogValue
unfoldable pub log_redis : RedisConfig → Group
log_redis c =
    (codes "address", text_value c.address)
    ∷ (codes "password", text_value redacted_value)
    ∷ (codes "db", number_value c.db)
    ∷ (codes "ping_timeout", number_value c.ping_timeout)
    ∷ []

-- AuthConfig.LogValue
unfoldable pub log_auth : AuthConfig → Group
log_auth c =
    (codes "jwt_secret", text_value redacted_value)
    ∷ (codes "jwt_issuer", text_value c.jwt_issuer)
    ∷ (codes "jwt_audience", text_value c.jwt_audience)
    ∷ (codes "access_token_ttl", number_value c.access_token_ttl)
    ∷ (codes "refresh_token_ttl", number_value c.refresh_token_ttl)
    ∷ (codes "bcrypt_cost", number_value c.bcrypt_cost)
    ∷ []

-- LogConfig.LogValue
unfoldable pub log_log : LogConfig → Group
log_log c = (codes "level", text_value c.level) ∷ (codes "format", text_value c.format) ∷ []

-- Config.LogValue: the environment, and a group for each part.
unfoldable pub log_config : Config → Text × List (Text × Group)
unfolding log_http log_database log_redis log_auth log_log
log_config c = (
  c.environment,
  (codes "http", log_http c.http)
      ∷ (codes "database", log_database c.database)
      ∷ (codes "redis", log_redis c.redis)
      ∷ (codes "auth", log_auth c.auth)
      ∷ (codes "log", log_log c.log)
      ∷ [],
)

-- MigrationConfig.LogValue
unfoldable pub log_migration_config : MigrationConfig → Text × List (Text × Group)
unfolding log_database log_log
log_migration_config c =
    (c.environment, (codes "database", log_database c.database) ∷ (codes "log", log_log c.log) ∷ [])

-- What is logged does not depend on the database's URL, the password of Redis and the signing secret.
log_config-secrets :
    (c : Config) (url password secret : Text)
    → log_config (record c {
      database = record c.database { url = url };
      redis = record c.redis { password = password };
      auth = record c.auth { jwt_secret = secret };
    })
      ≡ log_config c
unfolding log_config
log_config-secrets c url password secret = refl
