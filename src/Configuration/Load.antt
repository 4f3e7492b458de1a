-- ===== src/Configuration/Load.antt =====
-- Load and LoadMigration (infra/config/config.go): the values are normalised and then validated. What
-- env.Parse returned is an argument.
use content_platform.Prelude.{Text, Option, none, some}
use content_platform.Domain.Validation.{TextRules, trim_space, to_lower}
use content_platform.Address.{AddressLibrary}
use content_platform.Configuration.{
  Config, MigrationConfig, DatabaseConfig, LogConfig, validate, validate_migration,
}

module _ (rules : TextRules) where
  -- The values that both normalize methods trim.
  unfoldable pub normalize_database : DatabaseConfig → DatabaseConfig
  normalize_database c = record c { url = trim_space c.url }

  unfoldable pub normalize_log : LogConfig → LogConfig
  normalize_log c = record {
    level = to_lower rules (trim_space c.level);
    format = to_lower rules (trim_space c.format);
  }

  -- Config.normalize
  unfoldable pub normalize : Config → Config
  unfolding normalize_database normalize_log
  normalize c = record {
    environment = trim_space c.environment;
    http = record c.http { address = trim_space c.http.address };
    database = normalize_database c.database;
    redis = record c.redis { address = trim_space c.redis.address };
    auth = record c.auth {
      jwt_issuer = trim_space c.auth.jwt_issuer;
      jwt_audience = trim_space c.auth.jwt_audience;
    };
    log = normalize_log c.log;
  }

  -- MigrationConfig.normalize
  unfoldable pub normalize_migration : MigrationConfig → MigrationConfig
  unfolding normalize_database normalize_log
  normalize_migration c = record {
    environment = trim_space c.environment;
    database = normalize_database c.database;
    log = normalize_log c.log;
  }

-- A configuration, or the message of an error.
pub data Loaded (A : Type 0) : Type 0 where
  loaded : A → Loaded A
  refused : Text → Loaded A

unfoldable pub accept : {A : Type 0} → A → Option Text → Loaded A
accept c none = loaded c
accept c (some message) = refused message

module _ (library : AddressLibrary) (rules : TextRules) where
  -- Load, where env.Parse returned `parsed`
  unfoldable pub load : Loaded Config → Loaded Config
  unfolding accept
  load (refused message) = refused message
  load (loaded c) = let normal = normalize rules c in accept normal (validate library normal)

  -- LoadMigration
  unfoldable pub load_migration : Loaded MigrationConfig → Loaded MigrationConfig
  unfolding accept
  load_migration (refused message) = refused message
  load_migration (loaded c) =
      let normal = normalize_migration rules c in accept normal (validate_migration library normal)
