-- ===== src/Service.antt =====
-- identity/service: the service itself (service.go), its clock and its context. The operations
-- are in the child modules.
pub mod Configuration
pub mod Checks
pub mod Rows
pub mod Steps
pub mod Mute
pub mod Authenticate
pub mod Login
pub mod Refresh
pub mod Account
pub mod Profile
pub mod Deletion
pub mod StatusChange
pub mod Untouched
use content_platform.Prelude.{
  ℕ, ℤ, pos, negsuc, Bool, true, false, not, ◌&&◌, ◌||◌, Option, none, some, [], leb, ◌==◌, ◌%◌,
  is_positive, is_negative, eq_ℤ, text_eq, if◌then◌else◌,
}
use content_platform.GoTime.{Time, second, is_zero, year_in_range, is_after, is_before, time_eq}
use content_platform.Domain.{
  User, UserSession, Role, role_user, role_admin, role_eq, Status, muted, banned, deleted,
  other_status, status_eq, is_nil, normalize_time,
}
use content_platform.Domain.Validation.{
  TextRules, normalize_email, validate_email, normalize_display_name, validate_display_name,
  validate_bio,
}
use content_platform.Errors.{
  Error, Result, ok, err, internal, context_error, session_invalid, invalid_service_configuration,
  new_internal_error,
}
use content_platform.Ports.{
  PasswordHasher, AccessTokenManager, RefreshTokenGenerator, AuthenticationSession,
}
use content_platform.Database.{Environment, Poll}
use content_platform.Database.Monad.{Action, throw, pure}

-- A nil interface, or one that holds a nil pointer, is `none`. The repository and the clock are
-- the environment's, and their presence is all that `New` looks at.
pub record Dependencies : Type 0 where
  pub has_repository : Bool
  pub password_hasher : Option PasswordHasher
  pub access_token_manager : Option AccessTokenManager
  pub refresh_token_generator : Option RefreshTokenGenerator
  pub has_clock : Bool

-- Durations are signed, in nanoseconds.
pub record Config : Type 0 where
  pub access_token_ttl : ℤ
  pub refresh_token_ttl : ℤ

pub record Service : Type 0 where
  pub password_hasher : PasswordHasher
  pub access_token_manager : AccessTokenManager
  pub refresh_token_generator : RefreshTokenGenerator
  pub access_token_ttl : ℕ
  pub refresh_token_ttl : ℕ

-- `validTokenTTL`, with the duration as a number where it is valid.
unfoldable pub valid_token_ttl : ℤ → Option ℕ
valid_token_ttl (negsuc n) = none
valid_token_ttl (pos n) = if leb second n && n % second == 0 then some n else none

-- `New`
unfoldable pub new : Dependencies → Config → Result Service
unfolding valid_token_ttl
new d c =
    let refused = err invalid_service_configuration in
    if not d.has_repository || not d.has_clock then refused else elim d.password_hasher [
      | none ↦ refused
      | some hasher ↦ elim d.access_token_manager [
        | none ↦ refused
        | some manager ↦ elim d.refresh_token_generator [
          | none ↦ refused
          | some generator ↦ elim (valid_token_ttl c.access_token_ttl) [
            | none ↦ refused
            | some access ↦ elim (valid_token_ttl c.refresh_token_ttl) [
              | none ↦ refused
              | some refresh ↦
                  if leb refresh access
                  then refused
                  else ok (record {
                    password_hasher = hasher;
                    access_token_manager = manager;
                    refresh_token_generator = generator;
                    access_token_ttl = access;
                    refresh_token_ttl = refresh;
                  })
            ]
          ]
        ]
      ]
    ]

-- `if ctxErr := ctx.Err(); ctxErr != nil { return newInternalError(ctxErr) }`
unfoldable pub check_context : Environment → Poll → Action (Unit {0})
unfolding new_internal_error
check_context env poll = elim (env.ctx_err poll) [
  | none ↦ pure tt
  | some c ↦ throw (new_internal_error (context_error c))
]

-- `profileContextError` and `registrationContextError`
unfoldable pub check_live_context : Environment → Poll → Action (Unit {0})
unfolding check_context
check_live_context env poll =
    if env.context_is_nil then throw (internal none) else check_context env poll

-- `(s *Service) now()`
unfoldable pub now : Environment → Action Time
unfolding normalize_time
now env =
    let value = normalize_time env.clock_now in
    if is_zero value || not (year_in_range value) then throw (internal none) else pure value

-- `if err := …; err != nil { return err }`
unfoldable pub fail_with : Option Error → Action (Unit {0})
fail_with none = pure tt
fail_with (some e) = throw e
