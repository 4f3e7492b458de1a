-- ===== src/App/Start.antt =====
-- newWithDependencies of app/app.go, up to the HTTP server that it makes. What package bcrypt, golang-jwt
-- and SHA-256 do, and what the database and Redis answer, are parameters.
use content_platform.Prelude.{
  ℕ, ◌≤◌, ◌<◌, ◌%◌, ℤ, pos, negsuc, Text, List, [], ◌∷◌, Bool, true, false, not, ◌||◌, Option, none,
  some, ◌≡◌, ◌⊎◌, inl, inr, refl, arith, text_eq, ltb, leb, Option-cases, if◌then◌else◌,
}
use content_platform.GoTime.{second}
use content_platform.Domain.Validation.{byte_length, trim_space}
use content_platform.Errors.{Result, ok, err, adapter_error}
use content_platform.Ports.{Digest, PasswordHasher, AccessTokenManager, RefreshTokenGenerator}
use content_platform.Service.{Service, Dependencies, valid_token_ttl}
use content_platform.Service
use content_platform.Token.Base64.{Bytes}
use content_platform.Token.Access.{
  JwtLibrary, AccessManager, new_access_manager, access_token_manager,
}
use content_platform.Token.Refresh.{refresh_codec}
use content_platform.Password.{
  BcryptLibrary, Bcrypt, dummy_candidate, valid_cost, with_cost, password_hasher,
}
use content_platform.Password
use content_platform.Address.{AddressLibrary}
use content_platform.Configuration.{Config, validate}
pub mod Correct

-- What happens to the database handle, in order.
pub data Event : Type 0 where
  database_opened database_closed : Event

-- The closers, in the order in which they are closed.
pub data Closer : Type 0 where
  redis_client database : Closer

pub record App : Type 0 where
  pub service : Service
  pub manager : AccessManager
  -- Redis did not answer at the start
  pub degraded : Bool
  pub closers : List Closer

pub record Startup : Type 0 where
  pub bcrypt : BcryptLibrary
  pub jwt : JwtLibrary
  pub sha256 : Bytes → Digest
  -- what a read of the random source gives each of the two token adapters
  pub jwt_random : Option Bytes
  pub refresh_random : Option Bytes
  -- `openPostgres` succeeds, and `pingRedis` does
  pub opens_database : Bool
  pub redis_answers : Bool

-- The deferred function: the database is closed unless the application has been made.
unfoldable pub close_unless_made : Result App → Result App × List Event
close_unless_made (ok app) = (ok app, database_opened ∷ [])
close_unless_made (err e) = (err e, database_opened ∷ database_closed ∷ [])

module _ (startup : Startup) (c : Config) where
  unfoldable pub dependencies : Bcrypt → AccessManager → Dependencies
  dependencies b m = record {
    has_repository = true;
    password_hasher = some (password_hasher startup.bcrypt b);
    access_token_manager = some (access_token_manager startup.jwt m);
    refresh_token_generator = some (refresh_codec startup.sha256 startup.refresh_random);
    has_clock = true;
  }

  unfoldable pub lifetimes : Service.Config
  lifetimes = record {
    access_token_ttl = c.auth.access_token_ttl;
    refresh_token_ttl = c.auth.refresh_token_ttl;
  }

  unfoldable pub make_app : AccessManager → Service → App
  make_app m service = record {
    service = service;
    manager = m;
    degraded = not startup.redis_answers;
    closers = redis_client ∷ database ∷ [];
  }

  unfoldable pub make_service : Bcrypt → AccessManager → Result App
  unfolding dependencies lifetimes make_app
  make_service b m = elim (Service.new (dependencies b m) lifetimes) [
    | err e ↦ err e
    | ok service ↦ ok (make_app m service)
  ]

  unfoldable pub make_manager : Bcrypt → Result App
  unfolding make_service
  make_manager b =
      elim (new_access_manager c.auth.jwt_secret c.auth.jwt_issuer c.auth.jwt_audience
        startup.jwt_random) [ none ↦ err adapter_error | some m ↦ make_service b m ]

  -- The steps behind the opening of the database.
  unfoldable pub make : Result App
  unfolding make_manager
  make = elim (Password.new startup.bcrypt c.auth.bcrypt_cost) [
    | err e ↦ err e
    | ok b ↦ make_manager b
  ]

  -- newWithDependencies
  unfoldable pub new_with_dependencies : Result App × List Event
  unfolding make close_unless_made
  new_with_dependencies =
      if not startup.opens_database then (err adapter_error, []) else close_unless_made make
